-- ===== src/Routeros.antt =====
-- The API client of netpulse/routeros.py: the lengths of words, and `_exchange`, which sends one
-- sentence and reads sentences up to `!done`. The bytes that the router sends are a list, which ends
-- where it closes the connection or the deadline passes. `bytes.decode("utf-8")` is a parameter.
-- The bits that `|` joins do not overlap, so that it is a sum.
pub mod Lengths
pub mod Limits
pub mod Sentences
mod Samples
use netpulse_monitor.Base.{
  ℕ, zero, suc, ◌+◌, ◌-◌, ◌*◌, ◌/◌, ◌%◌, Bool, true, false, not, ◌||◌, Option, none, some, List, [],
  ◌∷◌, ◌++◌, if◌then◌else◌, leb, ltb, ◌==◌, length, take, drop,
}
use netpulse_monitor.Text.{Text, text_of, same, is_empty}
use netpulse_monitor.Dict.{Dict, insert}

abbrev pub Bytes : Type 0
Bytes = List ℕ

abbrev pub max_bytes : ℕ
max_bytes = 2097152

abbrev pub max_rows : ℕ
max_rows = 256

abbrev pub max_words : ℕ
max_words = 16384

pub data Failure : Type 0 where
  word_too_large closed control_byte limit rejected request_denied too_many undecodable : Failure

pub data Result {ℓ} (A : Type ℓ) : Type ℓ where
  fail : Failure → Result A
  ok : A → Result A

-- `encode_length`
unfoldable pub encode_length : ℕ → Result Bytes
encode_length n =
    if not (leb n max_bytes)
    then fail word_too_large
    else if ltb n 0x80
    then ok (n ∷ [])
    else if ltb n 0x4000
    then ok ((n + 0x8000) / 256 ∷ (n + 0x8000) % 256 ∷ [])
    else if ltb n 0x200000
    then ok ((n + 0xC00000) / 65536 ∷ (n + 0xC00000) / 256 % 256 ∷ (n + 0xC00000) % 256 ∷ [])
    else ok (
        (n + 0xE0000000) / 16777216
        ∷ (n + 0xE0000000) / 65536 % 256
        ∷ (n + 0xE0000000) / 256 % 256
        ∷ (n + 0xE0000000) % 256
        ∷ [])

-- The words that `_exchange` sends, encoded, each after its length; and then an empty word.
unfoldable pub join_words : List Bytes → Result Bytes
join_words [] = ok []
join_words (w ∷ ws) = elim (encode_length (length w)) [
  | fail e ↦ fail e
  | ok size ↦ elim (join_words ws) [ fail e ↦ fail e | ok rest ↦ ok (size ++ (w ++ rest)) ]
]

unfoldable pub sent_data : List Bytes → Result Bytes
sent_data ws = elim (join_words ws) [ fail e ↦ fail e | ok bs ↦ ok (bs ++ 0 ∷ []) ]

-- `_recv`
unfoldable pub recv : ℕ → Bytes → Result (Bytes × Bytes)
recv size input =
    if leb size (length input) then ok (take size input, drop size input) else fail closed

-- `int.from_bytes(…, 'big')`, from the value read so far.
unfoldable pub from_bytes : ℕ → Bytes → ℕ
from_bytes v [] = v
from_bytes v (b ∷ bs) = from_bytes (v * 256 + b) bs

-- `(high << 8 * size) | int.from_bytes(self._recv(size), 'big')`
unfoldable pub with_high : ℕ → ℕ → Bytes → Result (ℕ × Bytes)
with_high high size input = elim (recv size input) [
  | fail e ↦ fail e
  | ok bytes ↦ ok (from_bytes high bytes.0, bytes.1)
]

-- `_length`
unfoldable pub read_length : Bytes → Result (ℕ × Bytes)
read_length [] = fail closed
read_length (first ∷ input) =
    if ltb first 0x80
    then ok (first, input)
    else if ltb first 0xC0
    then with_high (first % 64) 1 input
    else if ltb first 0xE0
    then with_high (first % 32) 2 input
    else if ltb first 0xF0
    then with_high (first % 16) 3 input
    else if first == 0xF0
    then with_high 0 4 input
    else fail control_byte

-- `word.split('=', 1)` where there is an equals sign.
unfoldable pub split_eq : Text → Option (Text × Text)
split_eq [] = none
split_eq (c ∷ s) =
    let rest = split_eq s in
    if c == b'=' then some ([], s) else elim rest [ none ↦ none | some kv ↦ some (c ∷ kv.0, kv.1) ]

unfoldable pub attribute : Text → Option (Text × Text)
attribute [] = none
attribute (c ∷ s) = if c == b'=' then split_eq s else none

-- The comprehension over `sentence[1:]`, into the dictionary read so far.
unfoldable pub attributes : List Text → Dict Text → Dict Text
attributes [] d = d
attributes (w ∷ ws) d = elim (attribute w) [
  | none ↦ attributes ws d
  | some kv ↦ attributes ws (insert kv.0 kv.1 d)
]

-- The variables of the loop.
pub record State : Type 0 where
  pub rows : List (Dict Text)
  pub sentence : List Text
  pub total : ℕ
  pub word_count : ℕ
  pub denied : Bool

abbrev pub Answer : Type 0
Answer = Result (List (Dict Text) × Dict Text)

-- After a turn of the loop it stops, or goes on with what is left of the input.
pub data Turn : Type 0 where
  stop : Answer → Turn
  go : Bytes → State → Turn

-- The end of a sentence.
unfoldable pub end_sentence : Text → Dict Text → Bytes → State → Turn
end_sentence kind attrs input s =
    let denied = if same kind (text_of "!trap") then true else s.denied in
    if same kind (text_of "!fatal")
    then stop (fail rejected)
    else if same kind (text_of "!done")
    then (if denied then stop (fail request_denied) else stop (ok (s.rows, attrs)))
    else if same kind (text_of "!re")
    then (if ltb max_rows (length (s.rows ++ attrs ∷ []))
        then stop (fail too_many)
        else go input (record s { rows = s.rows ++ attrs ∷ []; sentence = []; denied = denied }))
    else go input (record s { sentence = []; denied = denied })

unfoldable pub end_word : Bytes → State → Turn
end_word input s = elim s.sentence [
  | [] ↦ go input s
  | kind ∷ words ↦ end_sentence kind (attributes words []) input s
]

abbrev pub started : State
started = record { rows = []; sentence = []; total = 0; word_count = 0; denied = false }

module _ (decode : Bytes → Option Text) where
  -- `sentence.append(self._recv(size).decode('utf-8'))`
  unfoldable pub read_word : ℕ → Bytes → State → Turn
  read_word size input s = elim (recv size input) [
    | fail e ↦ stop (fail e)
    | ok bytes ↦ elim (decode bytes.0) [
      | none ↦ stop (fail undecodable)
      | some word ↦ go bytes.1 (record s { sentence = s.sentence ++ word ∷ [] })
    ]
  ]

  -- A turn of the loop, once the length is read.
  unfoldable pub sized : ℕ → Bytes → State → Turn
  sized size input s =
      let s' = record s { total = s.total + size; word_count = s.word_count + 1 } in
      if ltb max_bytes size || ltb max_bytes s'.total || ltb max_words s'.word_count
      then stop (fail limit)
      else if ltb 0 size
      then read_word size input s'
      else end_word input s'

  unfoldable pub turn : Bytes → State → Turn
  turn input s = elim (read_length input) [ fail e ↦ stop (fail e) | ok sr ↦ sized sr.0 sr.1 s ]

  -- `while True`, with fuel; `none` is its end.
  unfoldable pub turns : ℕ → Bytes → State → Option Answer
  turns zero input s = none
  turns (suc fuel) input s = elim (turn input s) [
    | stop a ↦ some a
    | go input' s' ↦ turns fuel input' s'
  ]

  -- The loop of `_exchange` on what the router sends, with a turn for each byte and one for the end.
  unfoldable pub exchange : Bytes → Option Answer
  exchange input = turns (suc (length input)) input started
