-- ===== src/Base/Ints.antt =====
-- Python's integers, as far as distances and a packet's `ttl` need them.
use Prim.Native.Nat.{ℕ, zero, suc}
use mathlib.Core.Path.{◌≡◌, refl}
use mathlib.Core.Bool.{Bool, true, false, not}
use native.Mathlib.Omega.{arith}
use netpulse_monitor.Base.Tests.{ltb, ◌==◌}

pub data ℤ : Type 0 where
  pos negsuc : ℕ → ℤ

unfoldable pub increment : ℤ → ℤ
increment (pos n) = pos (suc n)
increment (negsuc zero) = pos zero
increment (negsuc (suc n)) = negsuc n

unfoldable pub decrement : ℤ → ℤ
decrement (pos zero) = negsuc zero
decrement (pos (suc n)) = pos n
decrement (negsuc n) = negsuc (suc n)

unfoldable pub ltb_ℤ : ℤ → ℤ → Bool
ltb_ℤ (pos a) (pos b) = ltb a b
ltb_ℤ (pos a) (negsuc b) = false
ltb_ℤ (negsuc a) (pos b) = true
ltb_ℤ (negsuc a) (negsuc b) = ltb b a

abbrev pub leb_ℤ : ℤ → ℤ → Bool
leb_ℤ a b = not (ltb_ℤ b a)

unfoldable pub eq_ℤ : ℤ → ℤ → Bool
eq_ℤ (pos a) (pos b) = a == b
eq_ℤ (negsuc a) (negsuc b) = a == b
eq_ℤ _ _ = false

pub eq_ℤ-eq : (a b : ℤ) → eq_ℤ a b ≡ true → a ≡ b
unfolding eq_ℤ
eq_ℤ-eq (pos a) (pos b) h = ground arith
eq_ℤ-eq (pos a) (negsuc b) h = absurd cc
eq_ℤ-eq (negsuc a) (pos b) h = absurd cc
eq_ℤ-eq (negsuc a) (negsuc b) h = ground arith

pub leb_ℤ-refl : (a : ℤ) → leb_ℤ a a ≡ true
unfolding ltb_ℤ
leb_ℤ-refl (pos a) = ground arith
leb_ℤ-refl (negsuc a) = ground arith

pub leb_ℤ-ltb : (a b : ℤ) → ltb_ℤ a b ≡ true → leb_ℤ a b ≡ true
unfolding ltb_ℤ
leb_ℤ-ltb (pos a) (pos b) h = ground arith
leb_ℤ-ltb (pos a) (negsuc b) h = absurd cc
leb_ℤ-ltb (negsuc a) (pos b) h = refl
leb_ℤ-ltb (negsuc a) (negsuc b) h = ground arith

pub leb_ℤ-trans : (a b c : ℤ) → leb_ℤ a b ≡ true → leb_ℤ b c ≡ true → leb_ℤ a c ≡ true
unfolding ltb_ℤ
leb_ℤ-trans (pos a) (pos b) (pos c) h k = ground arith
leb_ℤ-trans (negsuc a) (negsuc b) (negsuc c) h k = ground arith
leb_ℤ-trans (negsuc a) b (pos c) h k = refl
leb_ℤ-trans (pos a) (negsuc b) c h k = absurd cc
leb_ℤ-trans (pos a) (pos b) (negsuc c) h k = absurd cc
leb_ℤ-trans (negsuc a) (pos b) (negsuc c) h k = absurd cc
