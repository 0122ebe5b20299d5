-- ===== src/Common/Bytes.antt =====
-- Statements on all numbers below a bound, decided by trying them.
use Prim.Native.Nat.{ℕ, zero, suc, ◌<◌}
use mathlib.Core.Path.{◌≡◌, refl}
use mathlib.Core.Logic.{inl, inr}
use mathlib.Core.Bool.{Bool, true, false, ◌&&◌, not}
use native.Mathlib.Omega.{arith}
use my_linux_kernel.Common.Tests.{◌==◌, Bool-cases}

abbrev pub all_below : ℕ → (ℕ → Bool) → Bool
all_below zero p = true
all_below (suc n) p = p n && all_below n p

pub all_below-elim : (n : ℕ) (p : ℕ → Bool) (r : ℕ) → all_below n p ≡ true → r < n → p r ≡ true
all_below-elim zero p r all h = absurd (omega arith)
all_below-elim (suc n) p r all h = elim (Bool-cases (r == n)) [
  | inl e ↦ let same : r ≡ n = ground arith in rw same (ground arith)
  | inr e ↦ all_below-elim n p r (ground arith) (ground arith)
]

abbrev pub same_bool : Bool → Bool → Bool
same_bool true b = b
same_bool false b = not b

pub same_bool-elim : (a b : Bool) → same_bool a b ≡ true → a ≡ b
same_bool-elim true b h = ground arith
same_bool-elim false b h = ground arith

pub both_true : (a b : Bool) → (a && b) ≡ true → (a ≡ true) × (b ≡ true)
both_true true b h = (refl, h)
both_true false b h = ground arith
