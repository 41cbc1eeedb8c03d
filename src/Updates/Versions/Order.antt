-- ===== src/Updates/Versions/Order.antt =====
-- The order of versions: `is_newer` and `compare_versions` of app_version.py.
use netpulse_monitor.Base.{◌≡◌, ◌↔◌, refl, Bool, true, false, Option, none, some, arith}
use netpulse_monitor.Text.{Text}
use netpulse_monitor.Updates.Versions.{
  Version, is_greater, parse_version, compare_versions, compare_read, is_newer, is_newer_read,
  newer, older, level, difference,
}

is_greater-irreflexive : (a : Version) → is_greater a a ≡ false
unfolding is_greater
is_greater-irreflexive a = ground arith

is_greater-transitive :
    (a b c : Version) → is_greater a b ≡ true → is_greater b c ≡ true → is_greater a c ≡ true
unfolding is_greater
is_greater-transitive a b c h k = ground arith

is_greater-connex : (a b : Version) → is_greater a b ≡ false → is_greater b a ≡ false → a ≡ b
unfolding is_greater
is_greater-connex a b h k = ground arith

is_greater-asymmetric : (a b : Version) → is_greater a b ≡ true → is_greater b a ≡ false
unfolding is_greater
is_greater-asymmetric a b h = ground arith

difference_iff :
    (g l : Bool)
    → (g ≡ true → l ≡ false)
    → ((difference g l ≡ newer) ↔ (g ≡ true))
      × ((difference g l ≡ older) ↔ (l ≡ true))
      × ((difference g l ≡ level) ↔ ((g ≡ false) × (l ≡ false)))
difference_iff true true h = absurd (cc (h refl))
difference_iff true false h = ground arith
difference_iff false true h = ground arith
difference_iff false false h = ground arith

level_iff :
    (a b : Version)
    → ((difference (is_greater a b) (is_greater b a) ≡ level)
        ↔ ((is_greater a b ≡ false) × (is_greater b a ≡ false)))
    → (difference (is_greater a b) (is_greater b a) ≡ level) ↔ (a ≡ b)
level_iff a b d = (
  λ h. is_greater-connex a b (d.0 h).0 (d.0 h).1,
  λ e. d.1 (rw e (is_greater-irreflexive b, is_greater-irreflexive b)),
)

-- No text is newer than itself.
pub is_newer-irreflexive : (a : Text) → is_newer a a ≡ false
unfolding is_newer is_newer_read
is_newer-irreflexive a = elim (parse_version a) as (λ p. is_newer_read p p ≡ false) [
  | none ↦ ground arith
  | some v ↦ is_greater-irreflexive v
]

newer_read_trans :
    (a b c : Option Version)
    → is_newer_read a b ≡ true
    → is_newer_read b c ≡ true
    → is_newer_read a c ≡ true
unfolding is_newer_read
newer_read_trans (some a) (some b) (some c) h k = is_greater-transitive a b c h k
newer_read_trans (some a) (some b) none h k = ground arith
newer_read_trans none b c h k = ground arith
newer_read_trans (some a) none c h k = ground arith

-- What is newer than a newer version is newer, also where one of the three is unreadable.
pub is_newer-transitive :
    (a b c : Text) → is_newer a b ≡ true → is_newer b c ≡ true → is_newer a c ≡ true
unfolding is_newer
is_newer-transitive a b c h k =
    newer_read_trans (parse_version a) (parse_version b) (parse_version c) h k

-- Readable versions compare as newer where `is_newer` holds, as older where it holds the other
-- way round, and as level only where they have the same numbers.
pub compare_versions-numbers :
    (a b : Text) (pa pb : Version)
    → parse_version a ≡ some pa
    → parse_version b ≡ some pb
    → ((compare_versions a b ≡ newer) ↔ (is_newer a b ≡ true))
      × ((compare_versions a b ≡ older) ↔ (is_newer b a ≡ true))
      × ((compare_versions a b ≡ level) ↔ (pa ≡ pb))
unfolding compare_versions is_newer compare_read is_newer_read
compare_versions-numbers a b pa pb ea eb =
    let d = difference_iff (is_greater pa pb) (is_greater pb pa) (is_greater-asymmetric pa pb) in
    rw (ea, eb) (d.0, d.1, level_iff pa pb d.2)
