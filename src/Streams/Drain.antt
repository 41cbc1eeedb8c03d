-- ===== src/Streams/Drain.antt =====
-- The consumer of a closed pipe.
use netpulse_monitor.Base.{
  ℕ, suc, ◌+◌, ◌≡◌, refl, true, Option, none, some, List, [], ◌∷◌, arith, length,
}
use netpulse_monitor.Streams.{Pipe, anext, finish, drain}

module _ {A : Type 0} where
  -- The items before the first sentinel.
  abbrev pub until_end : List (Option A) → List A
  until_end [] = []
  until_end (none ∷ q) = []
  until_end (some a ∷ q) = a ∷ until_end q

  drain-queue :
      (n : ℕ) (p : Pipe A) (q : List (Option A))
      → p.closed ≡ true
      → p.queue ≡ q
      → drain (suc (n + length q)) p ≡ (until_end q, finish p)
  unfolding drain anext finish
  drain-queue n p [] c h = grind arith
  drain-queue n p (none ∷ q) c h = grind arith
  drain-queue n p (some a ∷ q) c h =
      let rest = drain-queue n (record p { queue = q }) q c refl in grind arith

  -- The consumer of a closed pipe never waits: it gets the items that stand before the first
  -- sentinel, in order, and then the iteration stops, or raises the error of a pipe that failed.
  -- One turn for each entry of the queue and one more are enough, and more change nothing.
  pub drain-closed :
      (n : ℕ) (p : Pipe A)
      → p.closed ≡ true
      → drain (suc (n + length p.queue)) p ≡ (until_end p.queue, finish p)
  drain-closed n p c = drain-queue n p p.queue c refl
