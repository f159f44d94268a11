-- ===== src/Prelude/Integers.antt =====
-- The integers over the native numbers, with their order as Boolean tests.
use Prim.Native.Nat.{ℕ}
use mathlib.Core.Path.{◌≡◌, ap}
use mathlib.Core.Bool.{Bool, true, false}
use native.Mathlib.Omega.{arith}
use teslatlas_sdk_typescript.Prelude.Tests.{ltb, ◌==◌, ==_iff}

pub data ℤ : Type 0 where
  pos negsuc : ℕ → ℤ

abbrev pub int_ltb : ℤ → ℤ → Bool
int_ltb (pos m) (pos n) = ltb m n
int_ltb (pos m) (negsuc n) = false
int_ltb (negsuc m) (pos n) = true
int_ltb (negsuc m) (negsuc n) = ltb n m

abbrev pub int_eq : ℤ → ℤ → Bool
int_eq (pos m) (pos n) = m == n
int_eq (pos m) (negsuc n) = false
int_eq (negsuc m) (pos n) = false
int_eq (negsuc m) (negsuc n) = m == n

pub int_ltb_trans : (a b c : ℤ) → int_ltb a b ≡ true → int_ltb b c ≡ true → int_ltb a c ≡ true
int_ltb_trans (pos a) (pos b) (pos c) h k = ground arith
int_ltb_trans (pos a) (pos b) (negsuc c) h k = ground arith
int_ltb_trans (pos a) (negsuc b) (pos c) h k = ground arith
int_ltb_trans (pos a) (negsuc b) (negsuc c) h k = ground arith
int_ltb_trans (negsuc a) (pos b) (pos c) h k = ground arith
int_ltb_trans (negsuc a) (pos b) (negsuc c) h k = ground arith
int_ltb_trans (negsuc a) (negsuc b) (pos c) h k = ground arith
int_ltb_trans (negsuc a) (negsuc b) (negsuc c) h k = ground arith

pub int_eq-eq : (a b : ℤ) → int_eq a b ≡ true → a ≡ b
int_eq-eq (pos a) (pos b) h = ap pos ((==_iff a b).0 h)
int_eq-eq (pos a) (negsuc b) h = ground arith
int_eq-eq (negsuc a) (pos b) h = ground arith
int_eq-eq (negsuc a) (negsuc b) h = ap negsuc ((==_iff a b).0 h)

pub int_eq_refl : (a : ℤ) → int_eq a a ≡ true
int_eq_refl (pos a) = ground arith
int_eq_refl (negsuc a) = ground arith

-- Of two integers, one is less or they are equal.
pub int_total : (a b : ℤ) → int_ltb a b ≡ false → int_eq a b ≡ false → int_ltb b a ≡ true
int_total (pos a) (pos b) h k = ground arith
int_total (pos a) (negsuc b) h k = ground arith
int_total (negsuc a) (pos b) h k = ground arith
int_total (negsuc a) (negsuc b) h k = ground arith
