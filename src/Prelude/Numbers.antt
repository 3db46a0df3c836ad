-- ===== src/Prelude/Numbers.antt =====
-- Python's signed integers over the native numbers.
use native.Mathlib.Nat.{div-add-mod'}
use native.Mathlib.Omega.{arith}
use mathlib.Core.Path.{◌≡◌}
use mathlib.Core.Bool.{true}
use vllm_exl.Prelude.Tests.{◌==◌}
use Prim.Native.Nat.{◌*◌, ◌/◌, ◌%◌, ℕ}

-- `negsuc n` is -(n + 1)
pub data ℤ : Type 0 where
  pos : ℕ → ℤ
  negsuc : ℕ → ℤ

-- `max(0, z)`
abbrev pub clamp : ℤ → ℕ
clamp (pos n) = n
clamp (negsuc n) = 0

-- a division without rest
pub exact-div : (a b : ℕ) → (a % b == 0) ≡ true → a / b * b ≡ a
exact-div a b h = let zero_rest : a % b ≡ 0 = ground arith in omega (arith, div-add-mod' a b)
