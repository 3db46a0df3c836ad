-- ===== src/Policy/CpuOffload/Defs.antt =====
-- `_normalize_codebooks` and `plan_exllamav3_cpu_offload` of src/vllm_exl3/cpu_offload.py. The
-- messages are constructors, with what they quote.
use vllm_exl.Prelude.{
  Bool, true, false, ◌&&◌, ◌||◌, not, Option, none, some, List, [], ◌∷◌, ◌++◌, ltb, ◌==◌,
  if◌then◌else◌, ℤ, clamp,
}
use vllm_exl.Prelude.Text.{Text, text, text_eq, strip, lower}
use vllm_exl.Prelude.Values.{
  Value, none_value, other_value, bool_value, int_value, str_value, is_int, number, not_positive,
}

abbrev pub deepseek_v41_arch : Text
deepseek_v41_arch = text "DeepseekV41ForCausalLM"

abbrev pub mul1 : Text
mul1 = text "mul1"

-- `str | Iterable[str] | None`
pub data Codebooks : Type 0 where
  absent : Codebooks
  single : Text → Codebooks
  several : List Text → Codebooks

abbrev pub values_of : Codebooks → List Text
values_of absent = []
values_of (single c) = c ∷ []
values_of (several cs) = cs

-- Python's order on texts
unfoldable pub text_ltb : Text → Text → Bool
text_ltb s [] = false
text_ltb [] (d ∷ t) = true
text_ltb (c ∷ s) (d ∷ t) = ltb c d || c == d && text_ltb s t

-- into a sorted list without repetitions
unfoldable pub insert_once : Text → List Text → List Text
insert_once s [] = s ∷ []
insert_once s (t ∷ ts) =
    if text_eq s t then t ∷ ts else if text_ltb s t then s ∷ t ∷ ts else t ∷ insert_once s ts

-- the set comprehension and its `sorted`
unfoldable pub sorted_set : List Text → List Text
unfolding insert_once
sorted_set [] = []
sorted_set (c ∷ cs) = elim (strip c) [
  | [] ↦ sorted_set cs
  | d ∷ s ↦ insert_once (lower (d ∷ s)) (sorted_set cs)
]

unfoldable pub normalize_codebooks : Codebooks → List Text
unfolding sorted_set
normalize_codebooks codebooks = sorted_set (values_of codebooks)

pub data Blocker : Type 0 where
  architecture_unknown codebook_not_proven k_not_positive biases_not_uniform : Blocker
  cannot_instantiate : Text → Blocker
  not_mul1_only : List Text → Blocker
  k_exceeds : ℤ → Blocker

pub data Warning : Type 0 where
  availability_not_proven max_k_not_proven biases_not_proven : Warning

pub data Route : Type 0 where
  qualify_forward_port produce_mul1_pack run_external resolve_blockers : Route

pub record CpuOffloadPlan : Type 0 where
  pub architecture : Text
  pub codebooks : List Text
  pub max_k : Value
  pub uniform_expert_biases : Option Bool
  pub exllamav3_architecture_available : Option Bool
  pub exllamav3_metadata_candidate : Bool
  pub vllm_exl3_execution_available : Bool
  pub blockers : List Blocker
  pub warnings : List Warning
  pub recommended_route : Route

abbrev pub texts_eq : List Text → List Text → Bool
texts_eq [] [] = true
texts_eq [] (t ∷ ts) = false
texts_eq (s ∷ ss) [] = false
texts_eq (s ∷ ss) (t ∷ ts) = text_eq s t && texts_eq ss ts

-- `normalized == ("mul1",)`
unfoldable pub mul1_only : List Text → Bool
mul1_only normalized = texts_eq normalized (mul1 ∷ [])

abbrev pub when : {A : Type 0} → Bool → A → List A
when true b = b ∷ []
when false b = []

abbrev pub is_empty : {A : Type 0} → List A → Bool
is_empty [] = true
is_empty (x ∷ xs) = false

abbrev pub refuted : Option Bool → Bool
refuted (some false) = true
refuted (some true) = false
refuted none = false

abbrev pub proven : Option Bool → Bool
proven (some b) = b
proven none = false

abbrev pub unknown : Option Bool → Bool
unknown none = true
unknown (some b) = false

unfoldable pub codebook_blockers : List Text → List Blocker
unfolding mul1_only
codebook_blockers [] = codebook_not_proven ∷ []
codebook_blockers (c ∷ cs) = when (not (mul1_only (c ∷ cs))) (not_mul1_only (c ∷ cs))

-- `max_k > 8`
abbrev pub above_8 : ℤ → Bool
above_8 z = ltb 8 (clamp z)

-- the blockers of a `max_k` that is not None
unfoldable pub k_blockers : Value → List Blocker
k_blockers none_value = []
k_blockers v =
    if not (is_int v) || not_positive (number v)
    then k_not_positive ∷ []
    else when (above_8 (number v)) (k_exceeds (number v))

unfoldable pub blockers_of : Text → List Text → Value → Option Bool → Option Bool → List Blocker
unfolding codebook_blockers k_blockers
blockers_of architecture normalized max_k uniform available =
    when (is_empty architecture) architecture_unknown
    ++ when (refuted available) (cannot_instantiate architecture)
    ++ codebook_blockers normalized
    ++ k_blockers max_k
    ++ when (refuted uniform) biases_not_uniform

abbrev pub is_none : Value → Bool
is_none none_value = true
is_none other_value = false
is_none (bool_value b) = false
is_none (int_value z) = false
is_none (str_value s) = false

unfoldable pub warnings_of : Value → Option Bool → Option Bool → List Warning
warnings_of max_k uniform available =
    when (unknown available) availability_not_proven
    ++ when (is_none max_k) max_k_not_proven
    ++ when (unknown uniform) biases_not_proven

unfoldable pub route_of : Text → List Text → Option Bool → Bool → Route
unfolding mul1_only
route_of architecture normalized available candidate =
    if text_eq architecture deepseek_v41_arch && not (proven available)
    then qualify_forward_port
    else if not (mul1_only normalized)
    then produce_mul1_pack
    else if candidate
    then run_external
    else resolve_blockers

-- `plan_exllamav3_cpu_offload`
unfoldable pub plan_exllamav3_cpu_offload :
    Text → Codebooks → Value → Option Bool → Option Bool → CpuOffloadPlan
unfolding normalize_codebooks blockers_of warnings_of route_of
plan_exllamav3_cpu_offload architecture codebooks max_k uniform available =
    let arch = strip architecture in
    let normalized = normalize_codebooks codebooks in
    let blockers = blockers_of arch normalized max_k uniform available in
    record {
      architecture = arch;
      codebooks = normalized;
      max_k = max_k;
      uniform_expert_biases = uniform;
      exllamav3_architecture_available = available;
      exllamav3_metadata_candidate = is_empty blockers;
      vllm_exl3_execution_available = false;
      blockers = blockers;
      warnings = warnings_of max_k uniform available;
      recommended_route = route_of arch normalized available (is_empty blockers);
    }
