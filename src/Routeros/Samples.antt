-- ===== src/Routeros/Samples.antt =====
-- Concrete words and sentences of the API. The texts here are decoded byte by byte.
use netpulse_monitor.Base.{suc, ◌≡◌, refl, some, List, [], ◌∷◌, ◌++◌, arith}
use netpulse_monitor.Text.{text_of, same}
use netpulse_monitor.Routeros.{
  max_words, started, Bytes, ok, Answer, encode_length, read_length, exchange, turns, sent_data,
  join_words, attributes, attribute, split_eq, turn, sized, read_word, end_word, end_sentence, recv,
  with_high, from_bytes,
}
use netpulse_monitor.Dict.{insert}
use netpulse_monitor.Routeros.Limits.{exchange-Limited}
use netpulse_monitor.Routeros.Sentences.{no_words, word, exchange-sent_data}

program : Unit {0}
unfolding encode_length read_length exchange turns sent_data join_words attributes attribute
    split_eq turn sized read_word end_word end_sentence recv with_high from_bytes insert same
program = tt

abbrev done_words : List Bytes
done_words = text_of "!done" ∷ text_of "=ret=7" ∷ []

abbrev sentence : Bytes
sentence = (5 ∷ text_of "!done") ++ (6 ∷ text_of "=ret=7") ++ 0 ∷ []

encode_length_200 : encode_length 200 ≡ ok (128 ∷ 200 ∷ [])
unfolding program
encode_length_200 = refl

exchange-Limited_example :
    (a : Answer) × (exchange some sentence ≡ some a)
    × (turns some (suc max_words) sentence started ≡ some a)
exchange-Limited_example = exchange-Limited some sentence

exchange-sent_data_example :
    exchange some (sentence ++ []) ≡ some (ok ([], attributes (text_of "=ret=7" ∷ []) []))
unfolding program
exchange-sent_data_example =
    exchange-sent_data some done_words (text_of "=ret=7" ∷ []) sentence [] refl
      (word (text_of "!done") (text_of "!done") (text_of "=ret=7" ∷ []) (text_of "=ret=7" ∷ [])
        (omega arith) refl
        (word (text_of "=ret=7") (text_of "=ret=7") [] [] (omega arith) refl no_words))
      (omega arith) (omega arith)
