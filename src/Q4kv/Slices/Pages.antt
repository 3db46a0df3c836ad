-- ===== src/Q4kv/Slices/Pages.antt =====
-- Unions of rows and how many pages they select.
use mathlib.Core.Path.{fun_ext}
use vllm_exl.Prelude.{ℕ, zero, suc, ◌≤◌, ◌≡◌, refl, true, arith}
use vllm_exl.Q4kv.Slices.Defs.{Row, empty, union, count}

-- every page of `u` is one of `v`
abbrev pub Within : Row → Row → Type 0
Within u v = (p : ℕ) → u p ≡ true → v p ≡ true

pub count_mono : (nb : ℕ) (u v : Row) → Within u v → count nb u ≤ count nb v
unfolding count
count_mono zero u v h = omega arith
count_mono (suc p) u v h = ground (arith, count_mono p u v h, h p)

pub count-empty : (nb : ℕ) → count nb empty ≡ 0
unfolding count
count-empty zero = refl
count-empty (suc p) = omega (arith, count-empty p)

pub Within-left : (u v : Row) → Within u (union u v)
Within-left u v p h = ground arith

pub union_assoc : (u v w : Row) → union (union u v) w ≡ union u (union v w)
union_assoc u v w = fun_ext λ p. ground arith

pub union-empty : (u : Row) → union u empty ≡ u
union-empty u = fun_ext λ p. ground arith

pub empty-union : (u : Row) → union empty u ≡ u
empty-union u = refl
