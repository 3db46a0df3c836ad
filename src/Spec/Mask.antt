-- ===== src/Spec/Mask.antt =====
-- The mask of `filter_speculative_candidates`, of one sequence.
use native.Mathlib.Nat.{zero-mul}
use vllm_exl.Prelude.{
  ℕ, zero, suc, ◌≡◌, refl, Bool, true, false, not, ◌==◌, List, [], ◌∷◌, map, length, sum, arith, ap,
}
use vllm_exl.Spec.Defs.{to_int, cumprod, prefix_mask, kept_count}

-- how many candidates come before the first that fails
abbrev pub confident_prefix : List Bool → ℕ
confident_prefix [] = 0
confident_prefix (true ∷ cs) = suc (confident_prefix cs)
confident_prefix (false ∷ cs) = 0

-- `kept` times true, then false, at a length
abbrev pub first : ℕ → ℕ → List Bool
first kept zero = []
first zero (suc n) = false ∷ first 0 n
first (suc kept) (suc n) = true ∷ first kept n

cumprod-zero :
    (cs : List Bool) → map (λ n. not (n == 0)) (cumprod 0 (map to_int cs)) ≡ first 0 (length cs)
unfolding cumprod
cumprod-zero [] = refl
cumprod-zero (c ∷ cs) = rw (zero-mul (to_int c)) (ap (λ m. false ∷ m) (cumprod-zero cs))

mask-first : (cs : List Bool) → prefix_mask cs ≡ first (confident_prefix cs) (length cs)
unfolding prefix_mask cumprod
mask-first [] = refl
mask-first (true ∷ cs) = ap (λ m. true ∷ m) (mask-first cs)
mask-first (false ∷ cs) = ap (λ m. false ∷ m) (cumprod-zero cs)

count-first :
    (cs : List Bool) → kept_count (first (confident_prefix cs) (length cs)) ≡ confident_prefix cs
unfolding kept_count
count-first [] = refl
count-first (true ∷ cs) = omega (arith, count-first cs)
count-first (false ∷ cs) = none_kept (suc (length cs))
  where
    none_kept : (n : ℕ) → sum (map to_int (first 0 n)) ≡ 0
    none_kept zero = refl
    none_kept (suc n) = omega (arith, none_kept n)

-- The mask keeps exactly the candidates before the first one that fails the threshold, later ones
-- that pass are pruned, and the count is the number of candidates kept.
pub prefix_mask_lem :
    (cs : List Bool)
    → (prefix_mask cs ≡ first (confident_prefix cs) (length cs))
      × (kept_count (prefix_mask cs) ≡ confident_prefix cs)
prefix_mask_lem cs = (mask-first cs, rw (mask-first cs) (count-first cs))
