-- ===== src/Updates/Versions.antt =====
-- netpulse/p2p_core/internal_modules/app_version.py: versions read from text, and their order. The
-- digits and spaces are those of ASCII.
pub mod Order
pub mod Printed
use netpulse_monitor.Base.{
  ℕ, ◌+◌, ◌-◌, ◌*◌, Bool, true, false, ◌&&◌, Option, none, some, [], ◌∷◌, ltb, leb, ◌==◌,
  if◌then◌else◌,
}
use netpulse_monitor.Text.{Text, text_of, lower, lstrip, is_empty}

pub record Version : Type 0 where
  pub major : ℕ
  pub minor : ℕ
  pub patch : ℕ
  pub build : ℕ

unfoldable pub is_digit : ℕ → Bool
is_digit c = leb b'0' c && leb c b'9'

-- The digits at the front, and what follows.
unfoldable pub digits : Text → Text × Text
digits [] = ([], [])
digits (c ∷ s) = let rest = digits s in if is_digit c then (c ∷ rest.0, rest.1) else ([], c ∷ s)

-- `int(s)` of digits, after the digits that make `n`.
unfoldable pub int_onto : ℕ → Text → ℕ
int_onto n [] = n
int_onto n (c ∷ s) = int_onto (n * 10 + (c - b'0')) s

unfoldable pub int_of : Text × Text → Option (ℕ × Text)
unfolding int_onto
int_of ([], s) = none
int_of (c ∷ ds, s) = some (int_onto 0 (c ∷ ds), s)

-- `(\d+)` at the front
unfoldable pub read_number : Text → Option (ℕ × Text)
unfolding digits int_of
read_number s = int_of (digits s)

-- What follows the prefix `p`.
unfoldable pub after : Text → Text → Option Text
after [] s = some s
after (c ∷ p) [] = none
after (c ∷ p) (d ∷ s) = if c == d then after p s else none

abbrev pub or_else {ℓ} : {A : Type ℓ} → Option A → A → A
or_else none d = d
or_else (some a) d = a

abbrev pub and_then {ℓ} : {A B : Type ℓ} → Option A → (A → Option B) → Option B
and_then none f = none
and_then (some a) f = f a

-- `(\d+)\.`
unfoldable pub number_dot : Text → Option (ℕ × Text)
unfolding read_number after
number_dot s = and_then (read_number s) λ n. and_then (after (text_of ".") n.1) λ t. some (n.0, t)

-- `(?:-build(\d+))?`, where no build counts as 0
unfoldable pub build_number : Text → ℕ × Text
unfolding read_number after
build_number s = or_else (and_then (after (text_of "-build") s) read_number) (0, s)

-- `\s*$`
unfoldable pub at_end : Text → Bool
unfolding lstrip
at_end s = is_empty (lstrip s)

-- `\s*v?`
unfoldable pub skip_v : Text → Text
unfolding lstrip after
skip_v s = let t = lstrip s in or_else (after (text_of "v") t) t

unfoldable pub parse_version : Text → Option Version
unfolding skip_v number_dot read_number build_number at_end
parse_version s = and_then (number_dot (skip_v s)) λ major. and_then (number_dot major.1) λ minor.
    and_then (read_number minor.1) λ patch.
      let build = build_number patch.1 in
      if at_end build.1
      then some record { major = major.0; minor = minor.0; patch = patch.0; build = build.0 }
      else none

-- `a > b` of tuples
unfoldable pub is_greater : Version → Version → Bool
is_greater a b =
    if a.major == b.major
    then if a.minor == b.minor
      then if a.patch == b.patch then ltb b.build a.build else ltb b.patch a.patch
      else ltb b.minor a.minor
    else ltb b.major a.major

-- `s > t` of strings
unfoldable pub is_text_greater : Text → Text → Bool
is_text_greater [] t = false
is_text_greater (x ∷ s) [] = true
is_text_greater (x ∷ s) (y ∷ t) = if x == y then is_text_greater s t else ltb y x

-- The results -1, 0 and 1.
pub data Comparison : Type 0 where
  older level newer : Comparison

-- `greater - less`
abbrev pub difference : Bool → Bool → Comparison
difference true false = newer
difference false true = older
difference _ _ = level

unfoldable pub compare_read : Text → Text → Option Version → Option Version → Comparison
unfolding is_greater is_text_greater lower
compare_read a b (some pa) (some pb) = difference (is_greater pa pb) (is_greater pb pa)
compare_read a b _ _ =
    difference (is_text_greater (lower a) (lower b)) (is_text_greater (lower b) (lower a))

unfoldable pub compare_versions : Text → Text → Comparison
unfolding parse_version compare_read
compare_versions a b = compare_read a b (parse_version a) (parse_version b)

unfoldable pub is_newer_read : Option Version → Option Version → Bool
unfolding is_greater
is_newer_read none current = false
is_newer_read (some c) none = true
is_newer_read (some c) (some current) = is_greater c current

unfoldable pub is_newer : Text → Text → Bool
unfolding parse_version is_newer_read
is_newer candidate current = is_newer_read (parse_version candidate) (parse_version current)
