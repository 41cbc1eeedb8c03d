-- ===== src/Routeros/Limits.antt =====
-- The loop of `_exchange` ends, within its limits, and never answers after a refusal.
use netpulse_monitor.Base.{
  ℕ, zero, suc, ◌+◌, ◌≤◌, ◌<◌, ◌≡◌, ◌≢◌, ◌⊎◌, refl, ap, ◌∙◌, inl, inr, true, false, Option, some,
  List, [], ◌∷◌, arith, length, drop,
}
use netpulse_monitor.Text.{Text}
use netpulse_monitor.Dict.{Dict}
use netpulse_monitor.Routeros.{
  Bytes, Failure, Result, ok, fail, State, Answer, Turn, stop, go, max_rows, max_words, recv,
  with_high, read_length, end_sentence, end_word, read_word, sized, turn, turns, exchange, started,
}

Length-cases :
    (r : Result (ℕ × Bytes))
    → ((e : Failure) × (r ≡ fail e)) ⊎ ((size : ℕ) × (rest : Bytes) × (r ≡ ok (size, rest)))
Length-cases (fail e) = inl (e, refl)
Length-cases (ok sr) = inr (sr.0, sr.1, refl)

pub Turn-cases :
    (t : Turn) → ((a : Answer) × (t ≡ stop a)) ⊎ ((input : Bytes) × (s : State) × (t ≡ go input s))
Turn-cases (stop a) = inl (a, refl)
Turn-cases (go input s) = inr (input, s, refl)

length-drop : (n : ℕ) (l : Bytes) → length (drop n l) ≤ length l
length-drop zero l = omega arith
length-drop (suc n) [] = omega arith
length-drop (suc n) (x ∷ l) = omega (arith, length-drop n l)

recv-shorter :
    (size : ℕ) (input taken rest : Bytes)
    → recv size input ≡ ok (taken, rest)
    → length rest ≤ length input
unfolding recv
recv-shorter size input taken rest e = grind (arith, length-drop)

read_length-shorter :
    (input rest : Bytes) (size : ℕ)
    → read_length input ≡ ok (size, rest)
    → length rest < length input
unfolding read_length with_high
read_length-shorter [] rest size e = ground arith
read_length-shorter (b ∷ input) rest size e = grind (arith, recv-shorter)

module _ (decode : Bytes → Option Text) where
  sized-shorter :
      (size : ℕ) (input input' : Bytes) (s s' : State)
      → sized decode size input s ≡ go input' s'
      → length input' ≤ length input
  unfolding sized read_word end_word end_sentence
  sized-shorter size input input' s s' e = grind (arith, recv-shorter)

  turn-shorter :
      (input input' : Bytes) (s s' : State)
      → turn decode input s ≡ go input' s'
      → length input' < length input
  unfolding turn
  turn-shorter input input' s s' e = elim (Length-cases (read_length input)) [
    | inl (f, r) ↦ ground arith
    | inr (size, rest, r) ↦
        ground (arith, read_length-shorter input rest size r, sized-shorter size rest input' s s')
  ]

  turns-Total :
      (fuel : ℕ) (input : Bytes) (s : State)
      → length input < fuel
      → (a : Answer) × (turns decode fuel input s ≡ some a)
  unfolding turns
  turns-Total zero input s h = ground arith
  turns-Total (suc fuel) input s h = elim (Turn-cases (turn decode input s)) [
    | inl (a, e) ↦ (a, rw (turns, e) refl)
    | inr (input', s', e) ↦
        let (a, f) = turns-Total fuel input' s' (omega (arith, turn-shorter input input' s s' e)) in
        (a, rw (turns, e) f)
  ]

  turn-rows :
      (input input' : Bytes) (s s' : State)
      → turn decode input s ≡ go input' s'
      → length s.rows ≤ max_rows
      → length s'.rows ≤ max_rows
  unfolding turn sized read_word end_word end_sentence
  turn-rows input input' s s' e h = grind (arith)

  turn-denied :
      (input input' : Bytes) (s s' : State)
      → turn decode input s ≡ go input' s'
      → s.denied ≡ true
      → s'.denied ≡ true
  unfolding turn sized read_word end_word end_sentence
  turn-denied input input' s s' e h = grind (arith)

  stop-ok :
      (input : Bytes) (s : State) (rows : List (Dict Text)) (attrs : Dict Text)
      → turn decode input s ≡ stop (ok (rows, attrs))
      → (rows ≡ s.rows) × (s.denied ≡ false)
  unfolding turn sized read_word end_word end_sentence
  stop-ok input s rows attrs e = grind (arith)

  turns-ok-rows :
      (fuel : ℕ) (input : Bytes) (s : State) (rows : List (Dict Text)) (attrs : Dict Text)
      → turns decode fuel input s ≡ some (ok (rows, attrs))
      → length s.rows ≤ max_rows
      → length rows ≤ max_rows
  unfolding turns
  turns-ok-rows zero input s rows attrs e h = ground arith
  turns-ok-rows (suc fuel) input s rows attrs e h = elim (Turn-cases (turn decode input s)) [
    | inl (a, t) ↦ ground (arith, stop-ok input s rows attrs)
    | inr (input', s', t) ↦
        turns-ok-rows fuel input' s' rows attrs (ground arith) (turn-rows input input' s s' t h)
  ]

  -- Each turn counts a word, within the limit.
  turn-counted :
      (input input' : Bytes) (s s' : State)
      → turn decode input s ≡ go input' s'
      → (s'.word_count ≡ suc s.word_count) × (s'.word_count ≤ max_words)
  unfolding turn sized read_word end_word end_sentence
  turn-counted input input' s s' e = grind (arith)

  turns-Limited :
      (fuel : ℕ) (input : Bytes) (s : State)
      → max_words < fuel + s.word_count
      → s.word_count ≤ max_words
      → (a : Answer) × (turns decode fuel input s ≡ some a)
  unfolding turns
  turns-Limited zero input s h l = ground arith
  turns-Limited (suc fuel) input s h l = elim (Turn-cases (turn decode input s)) [
    | inl (a, e) ↦ (a, rw (turns, e) refl)
    | inr (input', s', e) ↦
        let c = turn-counted input input' s s' e in
        let (a, f) = turns-Limited fuel input' s' (omega (arith, c)) c.1 in (a, rw (turns, e) f)
  ]

  turns-same :
      (f g : ℕ) (input : Bytes) (s : State) (a b : Answer)
      → turns decode f input s ≡ some a
      → turns decode g input s ≡ some b
      → a ≡ b
  unfolding turns
  turns-same zero g input s a b e h = absurd cc
  turns-same (suc f) zero input s a b e h = absurd cc
  turns-same (suc f) (suc g) input s a b e h = elim (Turn-cases (turn decode input s)) [
    | inl (x, t) ↦ cc (rw (turns, t) at e, rw (turns, t) at h)
    | inr (input', s', t) ↦ turns-same f g input' s' a b (rw (turns, t) at e) (rw (turns, t) at h)
  ]

  pub exchange-Total : (input : Bytes) → (a : Answer) × (exchange decode input ≡ some a)
  unfolding exchange
  exchange-Total input = turns-Total (suc (length input)) input started (omega arith)

  -- Whatever the router sends, and however much, the loop of `_exchange` ends with an answer or an
  -- error, after at most one turn more than the limit of words.
  pub exchange-Limited :
      (input : Bytes)
      → (a : Answer) × (exchange decode input ≡ some a)
        × (turns decode (suc max_words) input started ≡ some a)
  unfolding exchange
  exchange-Limited input =
      let (a, e) = exchange-Total input in
      let (b, h) = turns-Limited (suc max_words) input started (omega arith) (omega arith) in
      (a, e, h ∙ ap some (turns-same (suc max_words) (suc (length input)) input started b a h e))

  -- An answer has at most 256 rows.
  pub exchange-rows :
      (input : Bytes) (rows : List (Dict Text)) (attrs : Dict Text)
      → exchange decode input ≡ some (ok (rows, attrs))
      → length rows ≤ max_rows
  unfolding exchange
  exchange-rows input rows attrs e =
      turns-ok-rows (suc (length input)) input started rows attrs e (omega arith)

  -- Once a sentence has reported a refusal, nothing that follows makes an answer.
  pub turns-denied :
      (fuel : ℕ) (input : Bytes) (s : State) (rows : List (Dict Text)) (attrs : Dict Text)
      → s.denied ≡ true
      → turns decode fuel input s ≢ some (ok (rows, attrs))
  unfolding turns
  turns-denied zero input s rows attrs d e = ground arith
  turns-denied (suc fuel) input s rows attrs d e = elim (Turn-cases (turn decode input s)) [
    | inl (a, t) ↦ ground (arith, stop-ok input s rows attrs)
    | inr (input', s', t) ↦
        turns-denied fuel input' s' rows attrs (turn-denied input input' s s' t d) (ground arith)
  ]
