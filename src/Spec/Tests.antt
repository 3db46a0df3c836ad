-- ===== src/Spec/Tests.antt =====
-- Schedules in and out of order, and the theorems at them.
use vllm_exl.Prelude.{◌≡◌, ◌⊎◌, refl, true, false, inl, none, some, [], ◌∷◌, pos, All}
use vllm_exl.Prelude.Text.{text, is_space, lstrip, strip, digits, signed, int, split_on, split}
use vllm_exl.Prelude.Values.{int_value, str_value, bool_value, int_of}
use vllm_exl.Spec.Defs.{
  Range, fields, Schedule, entries, all_digits, some_digits, matches_integer, entry_value, range_of,
  entry_range, normalized, range_leb, insert_sorted, sort, apart, validated, parse_entry,
  parse_entries, parse_speculative_schedule, object, active_schedule, covers, lookup,
  get_speculative_draft_tokens, cumprod, prefix_mask, kept_count, default_schedule, unset,
  filter_speculative_candidates,
}
use vllm_exl.Spec.Order.{Among, Ordered, active_schedule-Ordered}
use vllm_exl.Spec.Lookup.{lookup-validated, get_speculative_draft_tokens_lem}
use vllm_exl.Spec.Mask.{prefix_mask_lem}

program : Unit {0}
unfolding is_space lstrip strip digits signed int split_on split int_of all_digits some_digits
    matches_integer entry_value range_of entry_range normalized range_leb insert_sorted sort apart
    validated parse_entry parse_entries parse_speculative_schedule active_schedule lookup
    get_speculative_draft_tokens cumprod prefix_mask kept_count filter_speculative_candidates
program = tt

abbrev low : Range
low = record { min_bs = 1; max_bs = 2; draft_tokens = 4 }

abbrev high : Range
high = record { min_bs = 5; max_bs = 9; draft_tokens = 2 }

-- the ranges in the wrong order, one number as a text
abbrev unsorted : Schedule
unsorted = entries (
    fields (int_value (pos 5) ∷ int_value (pos 9) ∷ str_value (text " +2") ∷ [])
    ∷ fields (int_value (pos 1) ∷ int_value (pos 2) ∷ int_value (pos 4) ∷ [])
    ∷ [])

sorted : validated unsorted ≡ some (low ∷ high ∷ [])
unfolding program
sorted = refl

overlap : parse_speculative_schedule (text "1:4:2,4:8:1") ≡ default_schedule
unfolding program
overlap = refl

well_formed : parse_speculative_schedule (text " 5:9:2 , 1:2:4 ") ≡ low ∷ high ∷ []
unfolding program
well_formed = refl

gap : get_speculative_draft_tokens none (int_value (pos 3)) (object unsorted) ≡ 0
unfolding program
gap = refl

mask :
    filter_speculative_candidates ((true ∷ false ∷ true ∷ []) ∷ [])
    ≡ ((true ∷ false ∷ false ∷ []) ∷ [], 1 ∷ [])
unfolding program
mask = refl

active_schedule-Ordered_example : Ordered (active_schedule (some (text "1:4:2,4:8:1")) unset)
active_schedule-Ordered_example = active_schedule-Ordered (some (text "1:4:2,4:8:1")) unset

two_entries :
    normalized (
      fields (int_value (pos 5) ∷ int_value (pos 9) ∷ str_value (text " +2") ∷ [])
      ∷ fields (int_value (pos 1) ∷ int_value (pos 2) ∷ int_value (pos 4) ∷ [])
      ∷ [])
    ≡ some (high ∷ low ∷ [])
unfolding program
two_entries = refl

lookup-validated_example : lookup (low ∷ high ∷ []) 7 ≡ 2
lookup-validated_example =
    lookup-validated _ (high ∷ low ∷ []) (low ∷ high ∷ []) high 7 two_entries sorted (inl refl) refl

read_true : int_of (bool_value true) ≡ some (pos 1)
unfolding program
read_true = refl

get_speculative_draft_tokens_lem_example :
    (get_speculative_draft_tokens (some (text "1:2:4,5:9:2")) (bool_value true) unset ≡ 0)
      × All (λ r. covers r 1 ≡ false) (active_schedule (some (text "1:2:4,5:9:2")) unset)
    ⊎ (r : Range) × Among r (active_schedule (some (text "1:2:4,5:9:2")) unset)
      × (covers r 1 ≡ true)
      × (get_speculative_draft_tokens (some (text "1:2:4,5:9:2")) (bool_value true) unset
          ≡ r.draft_tokens)
      × ((s : Range)
          → Among s (active_schedule (some (text "1:2:4,5:9:2")) unset)
          → covers s 1 ≡ true
          → s.draft_tokens ≡ r.draft_tokens)
get_speculative_draft_tokens_lem_example =
    get_speculative_draft_tokens_lem (some (text "1:2:4,5:9:2")) unset (bool_value true) 0 read_true

prefix_mask_lem_example :
    (prefix_mask (true ∷ false ∷ true ∷ []) ≡ true ∷ false ∷ false ∷ [])
    × (kept_count (prefix_mask (true ∷ false ∷ true ∷ [])) ≡ 1)
prefix_mask_lem_example = prefix_mask_lem (true ∷ false ∷ true ∷ [])
