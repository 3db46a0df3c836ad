-- ===== src/Policy/CpuOffload/Closed.antt =====
-- Which metadata makes a CPU-offload plan a candidate.
use vllm_exl.Prelude.{
  ◌≡◌, inl, inr, refl, Bool, true, false, ◌&&◌, not, Option, List, [], ◌∷◌, ◌++◌, arith, Bool-cases,
}
use vllm_exl.Prelude.Text.{Text, strip}
use vllm_exl.Prelude.Values.{
  Value, none_value, other_value, bool_value, int_value, str_value, not_positive,
}
use vllm_exl.Policy.CpuOffload.Defs.{
  Codebooks, normalize_codebooks, mul1_only, when, is_empty, refuted, codebook_blockers, above_8,
  k_blockers, blockers_of, plan_exllamav3_cpu_offload,
}

append-empty : {A : Type 0} (xs ys : List A) → is_empty (xs ++ ys) ≡ (is_empty xs && is_empty ys)
append-empty [] ys = refl
append-empty (x ∷ xs) ys = refl

when-empty : {A : Type 0} (b : Bool) (x : A) → is_empty (when b x) ≡ not b
when-empty true x = refl
when-empty false x = refl

codebook-empty :
    (normalized : List Text) → is_empty (codebook_blockers normalized) ≡ mul1_only normalized
unfolding codebook_blockers mul1_only
codebook-empty [] = refl
codebook-empty (c ∷ cs) = ground (arith, when-empty (not (mul1_only (c ∷ cs))))

-- `max_k` is not given, or is an int from 1 to 8
abbrev pub k_allowed : Value → Bool
k_allowed none_value = true
k_allowed (int_value z) = not (not_positive z) && not (above_8 z)
k_allowed (bool_value b) = false
k_allowed other_value = false
k_allowed (str_value s) = false

k-empty : (v : Value) → is_empty (k_blockers v) ≡ k_allowed v
unfolding k_blockers
k-empty none_value = refl
k-empty other_value = refl
k-empty (bool_value b) = refl
k-empty (str_value s) = refl
k-empty (int_value z) = elim (Bool-cases (not_positive z)) [
  | inl t ↦ rw t refl
  | inr f ↦ rw (f, when-empty (above_8 z)) refl
]

-- The metadata is a candidate exactly when the architecture has a name and is not known to be
-- missing, the codebooks are mul1 alone, K is absent or an int from 1 to 8, and the expert biases
-- are not known to be mixed; and no plan ever says that this package executes on the CPU.
pub plan_exllamav3_cpu_offload-candidate :
    (architecture : Text) (codebooks : Codebooks) (max_k : Value) (uniform available : Option Bool)
    → let p = plan_exllamav3_cpu_offload architecture codebooks max_k uniform available in
      (p.exllamav3_metadata_candidate ≡ (
        not (is_empty (strip architecture))
        && not (refuted available)
        && mul1_only (normalize_codebooks codebooks)
        && k_allowed max_k
        && not (refuted uniform)))
      × (p.vllm_exl3_execution_available ≡ false)
unfolding plan_exllamav3_cpu_offload blockers_of
plan_exllamav3_cpu_offload-candidate architecture codebooks max_k uniform available = (
  rw
      (
        append-empty, append-empty, append-empty, append-empty, codebook-empty, k-empty, when-empty,
        when-empty, when-empty,
      )
      refl,
  refl,
)
