-- ===== src/Policy/Prefill/Tests.antt =====
-- A plan for 20000 routed rows of 3-bit experts, and the theorems at it.
use vllm_exl.Prelude.{
  ℕ, ◌+◌, ◌*◌, ◌%◌, ◌≤◌, ◌<◌, ◌≡◌, ◌↔◌, ◌⊎◌, refl, true, false, none, some, [], ◌∷◌, pos, ok, raise,
  value_error, type_error,
}
use vllm_exl.Prelude.Text.{text, is_space, lstrip, strip, lower, digits, signed, int}
use vllm_exl.Prelude.Values.{int_value, none_value, bool_value}
use vllm_exl.Policy.Env.{env_enabled, positive_int_env}
use vllm_exl.Policy.Prefill.Defs.{
  grouped_prefill_max_rows, grouped_prefill_scratch_bytes, size_of, GroupedPrefillPlan, Arguments,
  Sizes, checked, limit_of, limit_checked, elem, reason_of, ceil_div, window_of, windowed,
  plan_grouped_prefill, is_eligible,
}
use vllm_exl.Policy.Prefill.Plans.{
  Conditions, plan_grouped_prefill-eligible, plan_grouped_prefill_bounds,
}

program : Unit {0}
unfolding is_space lstrip strip lower digits signed int env_enabled positive_int_env
    grouped_prefill_max_rows grouped_prefill_scratch_bytes size_of checked limit_of limit_checked
    elem reason_of ceil_div window_of windowed plan_grouped_prefill
program = tt

abbrev arguments : Arguments
arguments = record {
  bits = int_value (pos 3);
  codebook = text " MCG ";
  has_mul1 = false;
  hidden_size = int_value (pos 4096);
  intermediate_size = int_value (pos 2048);
  routed_rows = int_value (pos 20000);
  fat_threshold = int_value (pos 256);
  tile_rows = int_value (pos 64);
  max_rows = none_value;
  requested = none;
  supported_bits = 2 ∷ 3 ∷ [];
}

abbrev expected : GroupedPrefillPlan
expected = record {
  requested = true;
  eligible = true;
  reason = is_eligible;
  bits = 3;
  codebook = text "mcg";
  routed_rows = 20000;
  fat_threshold = 256;
  tile_rows = 64;
  window_rows = 8128;
  windows = 3;
  scratch_bytes = 166461440;
}

-- the limit of 8129 rows is rounded down to whole tiles
planned : plan_grouped_prefill (some (text "on")) (some (text "8129")) arguments ≡ ok expected
unfolding program
planned = refl

no_bool :
    plan_grouped_prefill none none (record arguments { bits = bool_value true }) ≡ raise type_error
unfolding program
no_bool = refl

small_limit : plan_grouped_prefill none (some (text "63")) arguments ≡ raise value_error
unfolding program
small_limit = refl

plan_grouped_prefill-eligible_example :
    (s : Sizes) × (checked arguments ≡ ok s)
    × ((expected.eligible ≡ true)
        ↔ Conditions expected.requested (2 ∷ 3 ∷ []) (text " MCG ") false s)
plan_grouped_prefill-eligible_example =
    plan_grouped_prefill-eligible (some (text "on")) (some (text "8129")) arguments expected planned

plan_grouped_prefill_bounds_example :
    (expected.eligible ≡ false)
      × (expected.window_rows ≡ 0)
      × (expected.windows ≡ 0)
      × (expected.scratch_bytes ≡ 0)
    ⊎ (expected.eligible ≡ true)
      × (s : Sizes) × (limit : ℕ) × (checked arguments ≡ ok s)
      × (limit_of (some (text "8129")) none_value s.tile_rows ≡ ok limit)
      × (0 < 8128)
      × (8128 % 64 ≡ 0)
      × (8128 ≤ limit)
      × (20000 ≤ 3 * 8128)
      × (3 * 8128 < 20000 + 8128)
      × (166461440 ≡ 8128 * (s.hidden_size + 3 * s.intermediate_size) * 2)
plan_grouped_prefill_bounds_example =
    plan_grouped_prefill_bounds (some (text "on")) (some (text "8129")) arguments expected planned
