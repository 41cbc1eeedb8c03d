-- ===== src/Routeros/Lengths.antt =====
-- The round trip of a word's length.
use netpulse_monitor.Base.{
  ℕ, ◌+◌, ◌/◌, ◌%◌, ◌≤◌, ◌≡◌, inl, inr, Bool-cases, [], ◌∷◌, ◌++◌, arith, ltb,
}
use netpulse_monitor.Routeros.{
  Bytes, ok, max_bytes, encode_length, read_length, with_high, recv, from_bytes,
}

-- A length up to 2 MiB is written without error, and read back as it is, up to where it ends.
pub read_length-encode_length :
    (n : ℕ) (rest : Bytes)
    → n ≤ max_bytes
    → (bs : Bytes) × (encode_length n ≡ ok bs) × (read_length (bs ++ rest) ≡ ok (n, rest))
unfolding encode_length read_length with_high recv from_bytes
read_length-encode_length n rest h = elim (Bool-cases (ltb n 0x80)) [
  | inl a ↦ (n ∷ [], ground arith, ground arith)
  | inr a ↦ elim (Bool-cases (ltb n 0x4000)) [
    | inl b ↦ ((n + 0x8000) / 256 ∷ (n + 0x8000) % 256 ∷ [], ground arith, ground arith)
    | inr b ↦ elim (Bool-cases (ltb n 0x200000)) [
      | inl c ↦ (
        (n + 0xC00000) / 65536 ∷ (n + 0xC00000) / 256 % 256 ∷ (n + 0xC00000) % 256 ∷ [],
        ground arith,
        ground arith,
      )
      | inr c ↦ (
        (n + 0xE0000000) / 16777216
            ∷ (n + 0xE0000000) / 65536 % 256
            ∷ (n + 0xE0000000) / 256 % 256
            ∷ (n + 0xE0000000) % 256
            ∷ [],
        ground arith,
        ground arith,
      )
    ]
  ]
]
