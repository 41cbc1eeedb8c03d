-- ===== src/Updates/Versions/Printed.antt =====
-- Versions printed in the format of app_version.py, and read back by `parse_version`.
use Prim.Native.Nat.{ℕ, zero, suc, ◌+◌, ◌/◌, ◌%◌, ◌<◌}
use netpulse_monitor.Base.{
  ◌≡◌, refl, sym, ap, ◌∙◌, inl, inr, Bool, true, false, not, some, [], ◌∷◌, ◌++◌, arith,
  if◌then◌else◌, ltb, All, Bool-cases, append_nil,
}
use netpulse_monitor.Text.{Text, text_of, is_space, lstrip, is_empty}
use netpulse_monitor.Updates.Versions.{
  Version, is_digit, digits, int_onto, int_of, read_number, after, number_dot, build_number, at_end,
  skip_v, parse_version,
}

-- The decimal digits of `n` in front of a text.
unfoldable decimal_onto : (fuel n : ℕ) → Text → Text
decimal_onto zero n s = s
decimal_onto (suc fuel) n s =
    let t = (b'0' + n % 10) ∷ s in if ltb n 10 then t else decimal_onto fuel (n / 10) t

unfoldable decimal : ℕ → Text
unfolding decimal_onto
decimal n = decimal_onto (suc n) n []

-- `MAJOR.MINOR.PATCH-buildN`
unfoldable print_version : Version → Text
unfolding decimal
print_version v =
    decimal v.major
    ++ b'.' ∷ (decimal v.minor ++ b'.' ∷ (decimal v.patch ++ (text_of "-build" ++ decimal v.build)))

abbrev AllDigits : Text → Type 0
AllDigits = All (λ c. is_digit c ≡ true)

-- A text that a number can stand before.
abbrev is_plain : Text → Bool
is_plain [] = true
is_plain (c ∷ s) = not (is_digit c)

int_onto-decimal_onto :
    (fuel n : ℕ) (s : Text) → n < fuel → int_onto 0 (decimal_onto fuel n s) ≡ int_onto n s
unfolding decimal_onto int_onto
int_onto-decimal_onto zero n s h = elim h [ ]
int_onto-decimal_onto (suc fuel) n s h = elim (Bool-cases (ltb n 10)) [
  | inl e ↦ rw e (ap (λ k. int_onto k s) (ground arith))
  | inr e ↦ rw e (
      int_onto-decimal_onto fuel (n / 10) ((b'0' + n % 10) ∷ s) (ground arith)
      ∙ ap (λ k. int_onto k s) (omega arith))
]

decimal_onto-AllDigits : (fuel n : ℕ) (s : Text) → AllDigits s → AllDigits (decimal_onto fuel n s)
unfolding decimal_onto is_digit
decimal_onto-AllDigits zero n s h = h
decimal_onto-AllDigits (suc fuel) n s h = elim (Bool-cases (ltb n 10)) [
  | inl e ↦ rw e (ground arith, h)
  | inr e ↦ rw e (decimal_onto-AllDigits fuel (n / 10) _ (ground arith, h))
]

decimal_onto_cons : (fuel n c : ℕ) (s : Text) → is_empty (decimal_onto fuel n (c ∷ s)) ≡ false
unfolding decimal_onto
decimal_onto_cons zero n c s = refl
decimal_onto_cons (suc fuel) n c s =
    ground (arith, decimal_onto_cons fuel (n / 10) (b'0' + n % 10) (c ∷ s))

decimal_nonempty : (n : ℕ) → is_empty (decimal n) ≡ false
unfolding decimal decimal_onto
decimal_nonempty n = ground (arith, decimal_onto_cons n (n / 10) (b'0' + n % 10) [])

digits-append : (s r : Text) → AllDigits s → is_plain r ≡ true → digits (s ++ r) ≡ (s, r)
unfolding digits
digits-append [] [] a p = refl
digits-append [] (c ∷ r) a p = ground arith
digits-append (c ∷ s) r a p = rw (digits-append s r a.1 p, a.0) refl

int_of-some : (s r : Text) → is_empty s ≡ false → int_of (s, r) ≡ some (int_onto 0 s, r)
unfolding int_of
int_of-some [] r h = cc
int_of-some (c ∷ s) r h = refl

decimal-AllDigits : (n : ℕ) → AllDigits (decimal n)
unfolding decimal
decimal-AllDigits n = decimal_onto-AllDigits (suc n) n [] tt

read_read_number-decimal :
    (n : ℕ) (r : Text) → is_plain r ≡ true → read_number (decimal n ++ r) ≡ some (n, r)
unfolding read_number decimal
read_read_number-decimal n r p =
    rw
      (
        digits-append (decimal n) r (decimal-AllDigits n) p,
        int_of-some (decimal n) r (decimal_nonempty n),
      )
      (ap (λ k. some (k, r)) (int_onto-decimal_onto (suc n) n [] (omega arith)))

number_dot-decimal : (n : ℕ) (r : Text) → number_dot (decimal n ++ b'.' ∷ r) ≡ some (n, r)
unfolding number_dot after is_digit
number_dot-decimal n r = rw (read_read_number-decimal n (b'.' ∷ r) refl) refl

skip_v-digit : (s r : Text) → AllDigits s → is_empty s ≡ false → skip_v (s ++ r) ≡ s ++ r
unfolding skip_v lstrip is_space is_digit after
skip_v-digit [] r a h = cc
skip_v-digit (c ∷ s) r a h = ground arith

build_number-decimal : (n : ℕ) → build_number (text_of "-build" ++ decimal n) ≡ (n, [])
unfolding build_number after
build_number-decimal n = rw (sym (append_nil (decimal n)), read_read_number-decimal n [] refl) refl

-- Every version that is printed is read back with its numbers.
parse_version-print_version : (v : Version) → parse_version (print_version v) ≡ some v
unfolding parse_version print_version at_end lstrip is_digit
parse_version-print_version v =
    rw
      (
        parse_version,
        print_version,
        skip_v-digit (decimal v.major) (b'.' ∷ _) (decimal-AllDigits v.major)
            (decimal_nonempty v.major),
        number_dot-decimal v.major _,
        number_dot-decimal v.minor _,
        read_read_number-decimal v.patch (text_of "-build" ++ decimal v.build) refl,
        build_number-decimal v.build,
      )
      refl
