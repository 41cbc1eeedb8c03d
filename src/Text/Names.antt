-- ===== src/Text/Names.antt =====
-- Lists of names, as sets are kept in Python lists.
use netpulse_monitor.Base.{
  ℕ, ◌≡◌, refl, inl, inr, Bool, false, List, [], ◌∷◌, ◌++◌, arith, if◌then◌else◌, any_of,
  Bool-cases, ◌||◌, ◌&&◌, not,
}
use netpulse_monitor.Text.{Text, same, same_iff}

-- `x in l`
abbrev pub has : Text → List Text → Bool
has x = any_of (same x)

-- `l.remove(x)`, where `x` is in the list.
unfoldable pub without_first : Text → List Text → List Text
without_first x [] = []
without_first x (y ∷ l) = if same x y then l else y ∷ without_first x l

-- `if x not in l: l.append(x)`
unfoldable pub with_last : Text → List Text → List Text
with_last x l = if has x l then l else l ++ x ∷ []

-- No two names are the same.
abbrev pub NoRepeat : List Text → Type 0
NoRepeat [] = Unit
NoRepeat (x ∷ l) = (has x l ≡ false) × NoRepeat l

pub has-append : (x : Text) (l m : List Text) → has x (l ++ m) ≡ (has x l || has x m)
has-append x [] m = refl
has-append x (y ∷ l) m = ground (arith, has-append x l m)

pub NoRepeat-snoc :
    (l : List Text) (x : Text) → NoRepeat l → has x l ≡ false → NoRepeat (l ++ x ∷ [])
NoRepeat-snoc [] x n h = (refl, tt)
NoRepeat-snoc (y ∷ l) x n h = (
  ground (arith, has-append y l (x ∷ []), same_iff y x, same_iff x y),
  NoRepeat-snoc l x n.1 (ground arith),
)

pub has-with_last : (x y : Text) (l : List Text) → has y (with_last x l) ≡ (same y x || has y l)
unfolding with_last
has-with_last x y l = ground (arith, has-append y l (x ∷ []), same_iff y x)

pub with_last-NoRepeat : (x : Text) (l : List Text) → NoRepeat l → NoRepeat (with_last x l)
unfolding with_last
with_last-NoRepeat x l n = elim (Bool-cases (has x l)) [
  | inl e ↦ rw e n
  | inr e ↦ rw e (NoRepeat-snoc l x n e)
]

pub has-without_first :
    (x y : Text) (l : List Text)
    → NoRepeat l
    → has y (without_first x l) ≡ (not (same y x) && has y l)
unfolding without_first
has-without_first x y [] n = ground arith
has-without_first x y (z ∷ l) n =
    ground (arith, same_iff x z, same_iff y x, same_iff y z, has-without_first x y l n.1)

pub without_first-NoRepeat : (x : Text) (l : List Text) → NoRepeat l → NoRepeat (without_first x l)
unfolding without_first
without_first-NoRepeat x [] n = tt
without_first-NoRepeat x (y ∷ l) n = elim (Bool-cases (same x y)) [
  | inl e ↦ rw e n.1
  | inr e ↦ rw e (ground (arith, has-without_first x y l n.1), without_first-NoRepeat x l n.1)
]

-- A name with something behind it is another name.
pub same-append : (s : Text) (c : ℕ) (t : Text) → same s (s ++ c ∷ t) ≡ false
unfolding same
same-append [] c t = refl
same-append (x ∷ s) c t = ground (arith, same-append s c t)

pub same-append_both : (s t u : Text) → same (s ++ t) (s ++ u) ≡ same t u
unfolding same
same-append_both [] t u = refl
same-append_both (x ∷ s) t u = ground (arith, same-append_both s t u)
