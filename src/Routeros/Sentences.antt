-- ===== src/Routeros/Sentences.antt =====
-- Sentences as `_exchange` writes them, read by its loop.
use mathlib.Core.List.{append_assoc}
use netpulse_monitor.Base.{
  ℕ, zero, suc, ◌+◌, ◌≤◌, ◌<◌, ◌≡◌, ◌⊎◌, refl, inl, inr, Bool, true, false, Option, some, List, [],
  ◌∷◌, ◌++◌, arith, leb, ltb, length, length-append, take-length-append, drop-length-append,
  append_nil, lt→ltb,
}
use netpulse_monitor.Text.{Text, text_of, same}
use netpulse_monitor.Dict.{Dict}
use netpulse_monitor.Routeros.{
  Bytes, Failure, Result, ok, fail, State, Answer, stop, go, max_bytes, max_words, encode_length,
  join_words, sent_data, recv, read_length, attributes, end_sentence, end_word, read_word, sized,
  turn, turns, exchange, started,
}
use netpulse_monitor.Routeros.Lengths.{read_length-encode_length}
use netpulse_monitor.Routeros.Limits.{Turn-cases}

recv-append : (w rest : Bytes) → recv (length w) (w ++ rest) ≡ ok (w, rest)
unfolding recv
recv-append w rest =
    let fits : leb (length w) (length (w ++ rest)) ≡ true = ground (arith, length-append w rest) in
    rw (fits, take-length-append w rest, drop-length-append w rest) refl

-- The length of a word, written without error, is read back.
read_length-size :
    (n : ℕ) (size rest : Bytes)
    → n ≤ max_bytes
    → encode_length n ≡ ok size
    → read_length (size ++ rest) ≡ ok (n, rest)
read_length-size n size rest h e =
    let (bs, f, g) = read_length-encode_length n rest h in ground (arith)

Bytes-cases : (r : Result Bytes) → ((e : Failure) × (r ≡ fail e)) ⊎ ((bs : Bytes) × (r ≡ ok bs))
Bytes-cases (fail e) = inl (e, refl)
Bytes-cases (ok bs) = inr (bs, refl)

join_words-cons :
    (w : Bytes) (ws : List Bytes) (bs : Bytes)
    → join_words (w ∷ ws) ≡ ok bs
    → (size : Bytes) × (rest : Bytes) × (encode_length (length w) ≡ ok size)
      × (join_words ws ≡ ok rest)
      × (bs ≡ size ++ (w ++ rest))
unfolding join_words
join_words-cons w ws bs e = elim (Bytes-cases (encode_length (length w))) [
  | inl (f, g) ↦ ground arith
  | inr (size, g) ↦ elim (Bytes-cases (join_words ws)) [
    | inl (f, h) ↦ ground arith
    | inr (rest, h) ↦ (size, rest, g, h, ground arith)
  ]
]

abbrev of_parts : List (Dict Text) → List Text → ℕ → ℕ → Bool → State
of_parts rows sentence total word_count denied = record {
  rows = rows;
  sentence = sentence;
  total = total;
  word_count = word_count;
  denied = denied;
}

cong_state :
    {rows : List (Dict Text)} {denied : Bool} {l l' : List Text} {m m' n n' : ℕ}
    → l ≡ l'
    → m ≡ m'
    → n ≡ n'
    → of_parts rows l m n denied ≡ of_parts rows l' m' n' denied
cong_state e f g = rw (e, f, g) refl

module _ (decode : Bytes → Option Text) where
  -- After a word `t` of `n` bytes.
  abbrev pub with_word : Text → ℕ → State → State
  with_word t n s = record s {
    sentence = s.sentence ++ t ∷ [];
    total = s.total + n;
    word_count = s.word_count + 1;
  }

  turn-word :
      (w size rest : Bytes) (t : Text) (s : State)
      → encode_length (length w) ≡ ok size
      → 0 < length w
      → s.total + length w ≤ max_bytes
      → s.word_count + 1 ≤ max_words
      → decode w ≡ some t
      → turn decode (size ++ (w ++ rest)) s ≡ go rest (with_word t (length w) s)
  unfolding turn sized read_word
  turn-word w size rest t s e nonempty fits few d =
      let r = read_length-size (length w) size (w ++ rest) (omega arith) e in
      let a : ltb max_bytes (length w) ≡ false = ground arith in
      let b : ltb max_bytes (s.total + length w) ≡ false = ground arith in
      let c : ltb max_words (s.word_count + 1) ≡ false = ground arith in
      let pos = lt→ltb 0 (length w) nonempty in let got = recv-append w rest in grind arith

  turns-more :
      (k m : ℕ) (input : Bytes) (s : State) (a : Answer)
      → turns decode k input s ≡ some a
      → k ≤ m
      → turns decode m input s ≡ some a
  unfolding turns
  turns-more zero m input s a e h = ground arith
  turns-more (suc k) zero input s a e h = ground arith
  turns-more (suc k) (suc m) input s a e h = elim (Turn-cases (turn decode input s)) [
    | inl (b, t) ↦ ground arith
    | inr (input', s', t) ↦ rw (turns, t) (turns-more k m input' s' a (ground arith) (omega arith))
  ]

  -- The words of a sentence, none of them empty, and their texts.
  pub data Decoded : List Bytes → List Text → Type 0 where
    no_words : Decoded [] []
    word :
        (w : Bytes) (t : Text) (ws : List Bytes) (ts : List Text)
        → 0 < length w
        → decode w ≡ some t
        → Decoded ws ts
        → Decoded (w ∷ ws) (t ∷ ts)

  abbrev pub size_of : List Bytes → ℕ
  size_of [] = 0
  size_of (w ∷ ws) = length w + size_of ws

  abbrev pub with_words : List Text → List Bytes → State → State
  with_words ts ws s = record s {
    sentence = s.sentence ++ ts;
    total = s.total + size_of ws;
    word_count = s.word_count + length ws;
  }

  with_words-none : (s : State) → with_words [] [] s ≡ s
  with_words-none s = cong_state (append_nil s.sentence) (omega arith) (omega arith)

  with_words-cons :
      (w : Bytes) (t : Text) (ws : List Bytes) (ts : List Text) (s : State)
      → with_words ts ws (with_word t (length w) s) ≡ with_words (t ∷ ts) (w ∷ ws) s
  with_words-cons w t ws ts s =
      cong_state (append_assoc s.sentence (t ∷ []) ts) (omega arith) (omega arith)

  turns-words :
      (fuel : ℕ) (ws : List Bytes) (ts : List Text) (bs rest : Bytes) (s : State)
      (a : Option Answer)
      → Decoded ws ts
      → join_words ws ≡ ok bs
      → s.total + size_of ws ≤ max_bytes
      → s.word_count + length ws ≤ max_words
      → turns decode fuel rest (with_words ts ws s) ≡ a
      → turns decode (length ws + fuel) (bs ++ rest) s ≡ a
  unfolding join_words turns
  turns-words fuel ws ts bs rest s a no_words e fits few done =
      let b : bs ≡ [] = ground arith in
      let z : 0 + fuel ≡ fuel = omega arith in rw (b, z) (rw (with_words-none s) at done)
  turns-words fuel ws ts bs rest s a (word w t ws' ts' n d x) e fits few done =
      let (size, bs', g, h, i) = join_words-cons w ws' bs e in
      let rec =
        turns-words fuel ws' ts' bs' rest (with_word t (length w) s) a x h (omega arith)
          (omega arith) (rw (with_words-cons w t ws' ts' s) done) in
      let step = turn-word w size (bs' ++ rest) t s g n (omega arith) (omega arith) d in
      let z : suc (length ws') + fuel ≡ suc (length ws' + fuel) = omega arith in
      rw (i, z, append_assoc size (w ++ bs') rest, append_assoc w bs' rest, turns, step) rec

  -- The turn at the empty word that ends a sentence `!done`.
  turn-done :
      (words : List Text) (rest : Bytes) (s : State)
      → s.sentence ≡ text_of "!done" ∷ words
      → s.denied ≡ false
      → s.total ≤ max_bytes
      → s.word_count + 1 ≤ max_words
      → turn decode (0 ∷ rest) s ≡ stop (ok (s.rows, attributes words []))
  unfolding turn sized read_length end_word end_sentence same
  turn-done words rest s e d fits few =
      let b : ltb max_bytes (s.total + 0) ≡ false = ground arith in
      let c : ltb max_words (s.word_count + 1) ≡ false = ground arith in grind arith

  join_words-length :
      (ws : List Bytes) (ts : List Text) (bs : Bytes)
      → Decoded ws ts
      → join_words ws ≡ ok bs
      → length ws ≤ length bs
  join_words-length ws ts bs no_words e = omega arith
  join_words-length ws ts bs (word w t ws' ts' n d x) e =
      let (size, bs', g, h, i) = join_words-cons w ws' bs e in
      rw i (
        omega (
          arith,
          length-append size (w ++ bs'),
          length-append w bs',
          join_words-length ws' ts' bs' x h,
        ))

  -- A sentence `!done`, as `_exchange` itself writes one, within the limits of size and of words and
  -- with words that are not empty and decode, is read as the answer of its attributes, without rows.
  pub exchange-sent_data :
      (ws : List Bytes) (ts : List Text) (bs rest : Bytes)
      → sent_data ws ≡ ok bs
      → Decoded ws (text_of "!done" ∷ ts)
      → size_of ws ≤ max_bytes
      → length ws + 1 ≤ max_words
      → exchange decode (bs ++ rest) ≡ some (ok ([], attributes ts []))
  unfolding exchange sent_data turns attributes
  exchange-sent_data ws ts bs rest e x fits few = elim (Bytes-cases (join_words ws)) [
    | inl (f, g) ↦ ground arith
    | inr (joined, g) ↦
        let b : bs ≡ joined ++ 0 ∷ [] = ground arith in
        let read = with_words (text_of "!done" ∷ ts) ws started in
        let last = turn-done ts rest read refl refl (omega arith) (omega arith) in
        let run =
          turns-words (suc zero) ws (text_of "!done" ∷ ts) joined (0 ∷ rest) started
            (some (ok ([], attributes ts []))) x g (omega arith) (omega arith)
            (rw (turns, last) refl) in
        let more =
          turns-more (length ws + 1) (suc (length (joined ++ 0 ∷ rest))) (joined ++ 0 ∷ rest)
            started (ok ([], attributes ts [])) run
            (omega (
              arith,
              length-append joined (0 ∷ rest),
              join_words-length ws (text_of "!done" ∷ ts) joined x g,
            )) in
        rw (b, append_assoc joined (0 ∷ []) rest) more
  ]
