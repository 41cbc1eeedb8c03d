-- ===== src/Streams/Order.antt =====
-- A pipe between any producers and consumers: it keeps the order, loses nothing and has a bound.
use mathlib.Core.List.{append_assoc}
use netpulse_monitor.Base.{
  ℕ, ◌≤◌, ◌≡◌, refl, ap, ◌∙◌, sym, inl, inr, Option, none, some, List, [], ◌∷◌, ◌++◌, arith, length,
  length-append, Bool-cases, Option-cases, ◌⊎◌,
}
use netpulse_monitor.Text.{Text}
use netpulse_monitor.Streams.{
  Pipe, item, stops, raises, new_pipe, size, is_full, put, put_nowait, close, put_sentinel, fail,
  anext, finish,
}

module _ {A : Type 0} where
  -- The items of a queue.
  abbrev pub carried : List (Option A) → List A
  carried [] = []
  carried (none ∷ q) = carried q
  carried (some a ∷ q) = a ∷ carried q

  pub carried-snoc :
      (q : List (Option A)) (a : A) → carried (q ++ some a ∷ []) ≡ carried q ++ a ∷ []
  carried-snoc [] a = refl
  carried-snoc (none ∷ q) a = carried-snoc q a
  carried-snoc (some b ∷ q) a = ap (◌∷◌ b) (carried-snoc q a)

  pub carried-sentinel : (q : List (Option A)) → carried (q ++ none ∷ []) ≡ carried q
  carried-sentinel [] = refl
  carried-sentinel (none ∷ q) = carried-sentinel q
  carried-sentinel (some b ∷ q) = ap (◌∷◌ b) (carried-sentinel q)

  -- A pipe of so many places after any calls on it, with the items that went in and came out.
  pub data Run (n : ℕ) : Pipe A → List A → List A → Type 0 where
    made : (pipe_id : Text) → Run n (new_pipe pipe_id n) [] []
    puts :
        {p p' : Pipe A} {ins outs : List A}
        → Run n p ins outs
        → (a : A) → put (some a) p ≡ some p'
        → Run n p' (ins ++ a ∷ []) outs
    ends : {p : Pipe A} {ins outs : List A} → Run n p ins outs → Run n (put_sentinel p) ins outs
    closes : {p : Pipe A} {ins outs : List A} → Run n p ins outs → Run n (close p) ins outs
    fails :
        {p : Pipe A} {ins outs : List A} → Run n p ins outs → (e : Text) → Run n (fail e p) ins outs
    takes :
        {p p' : Pipe A} {ins outs : List A}
        → Run n p ins outs
        → (a : A) → anext p ≡ (item a, p')
        → Run n p' ins (outs ++ a ∷ [])
    finishes :
        {p : Pipe A} {ins outs : List A}
        → Run n p ins outs
        → (anext p).0 ≡ finish p
        → Run n (anext p).1 ins outs

  -- The abstract queue: what went in is what came out and then what the pipe carries.
  pub record IsQueue (n : ℕ) (p : Pipe A) (ins outs : List A) : Type 0 where
    pub order : ins ≡ outs ++ carried p.queue
    pub places : p.buff_len ≡ n
    pub bound : n ≡ 0 ⊎ (length p.queue ≤ n)

  new_pipe-IsQueue : (n : ℕ) (pipe_id : Text) → IsQueue n (new_pipe pipe_id n) [] []
  unfolding new_pipe
  new_pipe-IsQueue n pipe_id = record { order = refl; places = refl; bound = ground arith }

  room :
      (n : ℕ) (p p' : Pipe A) (x : Option A)
      → put_nowait x p ≡ some p'
      → p.buff_len ≡ n
      → (p' ≡ record p { queue = p.queue ++ x ∷ [] }) × (n ≡ 0 ⊎ (length p'.queue ≤ n))
  unfolding put_nowait is_full size
  room n p p' x e h = ground (arith, length-append p.queue (x ∷ []))

  put-IsQueue :
      (n : ℕ) (p p' : Pipe A) (ins outs : List A) (a : A)
      → put (some a) p ≡ some p'
      → IsQueue n p ins outs
      → IsQueue n p' (ins ++ a ∷ []) outs
  unfolding put
  put-IsQueue n p p' ins outs a e q =
      let r = room n p p' (some a) e q.places in
      record {
        order =
            ap (λ l. l ++ a ∷ []) q.order
            ∙ append_assoc outs (carried p.queue) (a ∷ [])
            ∙ ap (λ l. outs ++ l)
                (sym (carried-snoc p.queue a) ∙ ap (λ s. carried s.queue) (sym r.0));
        places = ap (λ s. s.buff_len) r.0 ∙ q.places;
        bound = r.1;
      }

  put_sentinel-IsQueue :
      (n : ℕ) (p : Pipe A) (ins outs : List A)
      → IsQueue n p ins outs
      → IsQueue n (put_sentinel p) ins outs
  unfolding put_sentinel put_nowait is_full size
  put_sentinel-IsQueue n p ins outs q = elim (Bool-cases (is_full p)) [
    | inl e ↦ rw (e, put_sentinel, put_nowait) q
    | inr e ↦
        rw (e, put_sentinel, put_nowait)
          (record {
            order = q.order ∙ ap (λ l. outs ++ l) (sym (carried-sentinel p.queue));
            places = q.places;
            bound =
                let b = q.bound in
                let h = q.places in ground (arith, length-append p.queue (none ∷ []));
          })
  ]

  close-IsQueue :
      (n : ℕ) (p : Pipe A) (ins outs : List A) → IsQueue n p ins outs → IsQueue n (close p) ins outs
  unfolding close
  close-IsQueue n p ins outs q = record { order = q.order; places = q.places; bound = q.bound }

  fail-IsQueue :
      (n : ℕ) (p : Pipe A) (ins outs : List A) (e : Text)
      → IsQueue n p ins outs
      → IsQueue n (fail e p) ins outs
  unfolding fail
  fail-IsQueue n p ins outs e q =
      let p' = record p { error = some e } in
      let q' : IsQueue n p' ins outs = record {
        order = q.order;
        places = q.places;
        bound = q.bound;
      } in
      close-IsQueue n (put_sentinel p') ins outs (put_sentinel-IsQueue n p' ins outs q')

  pub queue-cases :
      (q : List (Option A))
      → (q ≡ [])
        ⊎ ((r : List (Option A)) × (q ≡ none ∷ r))
        ⊎ ((a : A) × (r : List (Option A)) × (q ≡ some a ∷ r))
  queue-cases [] = inl refl
  queue-cases (none ∷ q) = inr (inl (q, refl))
  queue-cases (some a ∷ q) = inr (inr (a, q, refl))

  finish-cases : (p : Pipe A) → (finish p ≡ stops) ⊎ ((e : Text) × (finish p ≡ raises e))
  unfolding finish
  finish-cases p = elim (Option-cases p.error) [
    | inl e ↦ inl (rw (e, finish) refl)
    | inr (t, e) ↦ inr (t, rw (e, finish) refl)
  ]

  anext-item :
      (p p' : Pipe A) (a : A)
      → anext p ≡ (item a, p')
      → (p.queue ≡ some a ∷ p'.queue) × (p'.buff_len ≡ p.buff_len)
  unfolding anext
  anext-item p p' a e =
      let f = finish-cases p in
      elim (queue-cases p.queue) [
        | inl h ↦ ground arith
        | inr (inl (r, h)) ↦ ground arith
        | inr (inr (b, r, h)) ↦ ground arith
      ]

  takes-IsQueue :
      (n : ℕ) (p p' : Pipe A) (ins outs : List A) (a : A)
      → anext p ≡ (item a, p')
      → IsQueue n p ins outs
      → IsQueue n p' ins (outs ++ a ∷ [])
  takes-IsQueue n p p' ins outs a e q =
      let (h, b) = anext-item p p' a e in
      record {
        order =
            q.order
            ∙ ap (λ l. outs ++ carried l) h
            ∙ sym (append_assoc outs (a ∷ []) (carried p'.queue));
        places = b ∙ q.places;
        bound = let c = q.bound in ground (arith, ap (λ l. length l) h);
      }

  anext-idle : (p : Pipe A) → p.queue ≡ [] → (anext p).1 ≡ p
  unfolding anext
  anext-idle p h = elim (Bool-cases p.closed) [ inl c ↦ ground arith | inr c ↦ ground arith ]

  finishes-IsQueue :
      (n : ℕ) (p : Pipe A) (ins outs : List A)
      → (anext p).0 ≡ finish p
      → IsQueue n p ins outs
      → IsQueue n (anext p).1 ins outs
  unfolding anext
  finishes-IsQueue n p ins outs e q =
      let f = finish-cases p in
      elim (queue-cases p.queue) [
        | inl h ↦ rw (anext-idle p h) q
        | inr (inl (r, h)) ↦
            rw (anext, h)
              (record {
                order = q.order ∙ ap (λ l. outs ++ carried l) h;
                places = q.places;
                bound = let c = q.bound in ground (arith, ap (λ l. length l) h);
              })
        | inr (inr (b, r, h)) ↦ ground arith
      ]

  -- Whatever producers and consumers do, in whatever order, the items that went into a pipe are
  -- those that came out, in the same order, and then those it carries; and it has no more places
  -- than it was made with, if that is not 0.
  pub Run-IsQueue :
      {n : ℕ} {p : Pipe A} {ins outs : List A} → Run n p ins outs → IsQueue n p ins outs
  Run-IsQueue {n} (made pipe_id) = new_pipe-IsQueue n pipe_id
  Run-IsQueue {n} (puts {p} {p'} {ins} {outs} r a e) =
      put-IsQueue n p p' ins outs a e (Run-IsQueue r)
  Run-IsQueue {n} (ends {p} {ins} {outs} r) = put_sentinel-IsQueue n p ins outs (Run-IsQueue r)
  Run-IsQueue {n} (closes {p} {ins} {outs} r) = close-IsQueue n p ins outs (Run-IsQueue r)
  Run-IsQueue {n} (fails {p} {ins} {outs} r e) = fail-IsQueue n p ins outs e (Run-IsQueue r)
  Run-IsQueue {n} (takes {p} {p'} {ins} {outs} r a e) =
      takes-IsQueue n p p' ins outs a e (Run-IsQueue r)
  Run-IsQueue {n} (finishes {p} {ins} {outs} r e) = finishes-IsQueue n p ins outs e (Run-IsQueue r)
