-- ===== src/Text/Canon.antt =====
-- Node names are compared through `_canon`: it makes one name of all its spellings.
use netpulse_monitor.Base.{Option, none, some, ◌≡◌, refl, [], ◌∷◌, arith}
use netpulse_monitor.Text.{
  Text, is_space, lower_char, lower, lstrip, rstrip, strip, canon, canon_option, is_empty,
}

lower_char_idem : (c : _) → lower_char (lower_char c) ≡ lower_char c
unfolding lower_char
lower_char_idem c = ground arith

is_space-lower_char : (c : _) → is_space (lower_char c) ≡ is_space c
unfolding lower_char is_space
is_space-lower_char c = ground arith

lower_idem : (s : Text) → lower (lower s) ≡ lower s
unfolding lower
lower_idem [] = refl
lower_idem (c ∷ s) = cc (lower_char_idem c, lower_idem s)

is_empty-lower : (s : Text) → is_empty (lower s) ≡ is_empty s
unfolding lower
is_empty-lower [] = refl
is_empty-lower (c ∷ s) = refl

lstrip-lower : (s : Text) → lstrip (lower s) ≡ lower (lstrip s)
unfolding lower lstrip
lstrip-lower [] = refl
lstrip-lower (c ∷ s) = ground (arith, is_space-lower_char c, lstrip-lower s)

rstrip-lower : (s : Text) → rstrip (lower s) ≡ lower (rstrip s)
unfolding lower rstrip
rstrip-lower [] = refl
rstrip-lower (c ∷ s) =
    ground (arith, is_space-lower_char c, rstrip-lower s, is_empty-lower (rstrip s))

lstrip_idem : (s : Text) → lstrip (lstrip s) ≡ lstrip s
unfolding lstrip
lstrip_idem [] = refl
lstrip_idem (c ∷ s) = ground (arith, lstrip_idem s)

rstrip_idem : (s : Text) → rstrip (rstrip s) ≡ rstrip s
unfolding rstrip
rstrip_idem [] = refl
rstrip_idem (c ∷ s) = ground (arith, rstrip_idem s)

lstrip-rstrip : (s : Text) → lstrip (rstrip s) ≡ rstrip (lstrip s)
unfolding lstrip rstrip
lstrip-rstrip [] = refl
lstrip-rstrip (c ∷ s) = ground (arith, lstrip-rstrip s)

strip_idem : (s : Text) → strip (strip s) ≡ strip s
unfolding strip
strip_idem s = cc (lstrip-rstrip (lstrip s), lstrip_idem s, rstrip_idem (lstrip s))

strip-lower : (s : Text) → strip (lower s) ≡ lower (strip s)
unfolding strip
strip-lower s = cc (lstrip-lower s, rstrip-lower (lstrip s))

-- A canonical name is its own canonical form.
pub canon_idem : (s : Text) → canon (canon s) ≡ canon s
unfolding canon
canon_idem s = cc (strip-lower (strip s), strip_idem s, lower_idem (strip s))

pub canon_option-canonical : (o : Option Text) (s : Text) → canon_option o ≡ some s → canon s ≡ s
unfolding canon_option
canon_option-canonical none s e = cc
canon_option-canonical (some r) s e = ground (arith, canon_idem r)
