-- ===== src/Spec/Defs.antt =====
-- The speculative-decoding schedule of src/vllm_exl3/exl3.py: `_validated_speculative_schedule`,
-- `parse_speculative_schedule`, `get_speculative_draft_tokens`, and the mask of one sequence in
-- `filter_speculative_candidates`.
use vllm_exl.Prelude.{
  ℕ, suc, ◌*◌, Bool, true, false, ◌&&◌, ◌||◌, Option, none, some, List, [], ◌∷◌, map, ltb, leb,
  ◌==◌, if◌then◌else◌, ℤ, pos, not, sum,
}
use vllm_exl.Prelude.Text.{Text, strip, int, split}
use vllm_exl.Prelude.Values.{
  Value, none_value, other_value, bool_value, int_value, str_value, int_of,
}

-- (min_bs, max_bs, draft_tokens)
pub record Range : Type 0 where
  pub min_bs : ℕ
  pub max_bs : ℕ
  pub draft_tokens : ℕ

-- `DEFAULT_SPECULATIVE_SCHEDULE`
abbrev pub default_schedule : List Range
default_schedule =
    record { min_bs = 1; max_bs = 4; draft_tokens = 3 }
    ∷ record { min_bs = 5; max_bs = 8; draft_tokens = 2 }
    ∷ record { min_bs = 9; max_bs = 16; draft_tokens = 1 }
    ∷ []

-- an element of a schedule: a list or tuple of values, or anything else
pub data Entry : Type 0 where
  fields : List Value → Entry
  scalar : Entry

pub data Schedule : Type 0 where
  entries : List Entry → Schedule
  not_a_sequence : Schedule

unfoldable pub all_digits : Text → Bool
all_digits [] = true
all_digits (c ∷ s) = leb 48 c && leb c 57 && all_digits s

unfoldable pub some_digits : Text → Bool
unfolding all_digits
some_digits [] = false
some_digits (c ∷ s) = all_digits (c ∷ s)

-- `re.fullmatch(r"[+-]?\d+", s)`
unfoldable pub matches_integer : Text → Bool
unfolding some_digits
matches_integer [] = false
matches_integer (c ∷ s) = if c == 43 || c == 45 then some_digits s else some_digits (c ∷ s)

-- the loop over the values of an entry
unfoldable pub entry_value : Value → Option ℤ
unfolding matches_integer
entry_value (int_value z) = some z
entry_value (str_value s) = if matches_integer (strip s) then int (strip s) else none
entry_value (bool_value b) = none
entry_value none_value = none
entry_value other_value = none

-- the tests `min_bs < 1 or max_bs < min_bs or draft_tokens < 0`
unfoldable pub range_of : Option ℤ → Option ℤ → Option ℤ → Option Range
range_of (some (pos a)) (some (pos b)) (some (pos c)) =
    if ltb a 1 || ltb b a then none else some (record { min_bs = a; max_bs = b; draft_tokens = c })
range_of _ _ _ = none

unfoldable pub entry_range : Entry → Option Range
unfolding entry_value range_of
entry_range (fields (a ∷ b ∷ c ∷ [])) = range_of (entry_value a) (entry_value b) (entry_value c)
entry_range _ = none

abbrev pub also : Option Range → Option (List Range) → Option (List Range)
also (some r) (some rs) = some (r ∷ rs)
also (some r) none = none
also none rs = none

-- the loop that fills `normalized`
unfoldable pub normalized : List Entry → Option (List Range)
unfolding entry_range
normalized [] = some []
normalized (e ∷ es) = also (entry_range e) (normalized es)

-- the order of the sort key
unfoldable pub range_leb : Range → Range → Bool
range_leb r s =
    ltb r.min_bs s.min_bs
    || r.min_bs == s.min_bs
      && (ltb r.max_bs s.max_bs || r.max_bs == s.max_bs && leb r.draft_tokens s.draft_tokens)

unfoldable pub insert_sorted : Range → List Range → List Range
unfolding range_leb
insert_sorted r [] = r ∷ []
insert_sorted r (s ∷ ss) = if range_leb r s then r ∷ s ∷ ss else s ∷ insert_sorted r ss

unfoldable pub sort : List Range → List Range
unfolding insert_sorted
sort [] = []
sort (r ∷ rs) = insert_sorted r (sort rs)

-- no `current[0] <= previous[1]`
unfoldable pub apart : List Range → Bool
apart [] = true
apart (r ∷ []) = true
apart (r ∷ s ∷ ss) = ltb r.max_bs s.min_bs && apart (s ∷ ss)

abbrev pub unless_overlap : List Range → Option (List Range)
unless_overlap rs = if apart rs then some rs else none

-- `_validated_speculative_schedule`
unfoldable pub validated : Schedule → Option (List Range)
unfolding normalized sort apart
validated not_a_sequence = none
validated (entries []) = none
validated (entries (e ∷ es)) = elim (normalized (e ∷ es)) [
  | none ↦ none
  | some rs ↦ unless_overlap (sort rs)
]

-- `[int(field, 10) for field in fields]`, for three fields that are not empty: `int` of an empty
-- text is an error too
unfoldable pub parse_entry : List Text → Option Entry
parse_entry (a ∷ b ∷ c ∷ []) = elim (int a) [
  | none ↦ none
  | some x ↦ elim (int b) [
    | none ↦ none
    | some y ↦ elim (int c) [
      | none ↦ none
      | some z ↦ some (fields (int_value x ∷ int_value y ∷ int_value z ∷ []))
    ]
  ]
]
parse_entry _ = none

abbrev pub also_entry : Option Entry → Option (List Entry) → Option (List Entry)
also_entry (some e) (some es) = some (e ∷ es)
also_entry (some e) none = none
also_entry none es = none

unfoldable pub parse_entries : List Text → Option (List Entry)
unfolding parse_entry
parse_entries [] = some []
parse_entries (t ∷ ts) = also_entry (parse_entry (map strip (split 58 t))) (parse_entries ts)

abbrev pub or_default : Option (List Range) → List Range
or_default none = default_schedule
or_default (some rs) = rs

abbrev pub parsed : Option (List Entry) → List Range
parsed none = default_schedule
parsed (some es) = or_default (validated (entries es))

-- the default where the stripped text is empty
abbrev pub unless_empty : Text → List Range → List Range
unless_empty [] rs = default_schedule
unless_empty (c ∷ t) rs = rs

-- `parse_speculative_schedule` of a text
unfoldable pub parse_speculative_schedule : Text → List Range
unfolding parse_entries validated
parse_speculative_schedule s = unless_empty (strip s) (parsed (parse_entries (split 44 s)))

-- the argument `schedule` of `get_speculative_draft_tokens`
pub data Choice : Type 0 where
  unset : Choice
  string : Text → Choice
  object : Schedule → Choice

-- from the value of VLLM_EXL3_SPEC_SCHEDULE and the argument
unfoldable pub active_schedule : Option Text → Choice → List Range
unfolding parse_speculative_schedule validated
active_schedule none unset = default_schedule
active_schedule (some configured) unset = parse_speculative_schedule configured
active_schedule env (string s) = parse_speculative_schedule s
active_schedule env (object s) = or_default (validated s)

abbrev pub covers : Range → ℕ → Bool
covers r batch = leb r.min_bs batch && leb batch r.max_bs

-- the loop over the active schedule
unfoldable pub lookup : List Range → ℕ → ℕ
lookup [] batch = 0
lookup (r ∷ rs) batch = if covers r batch then r.draft_tokens else lookup rs batch

abbrev pub at_batch : List Range → Option ℤ → ℕ
at_batch rs (some (pos (suc n))) = lookup rs (suc n)
at_batch rs _ = 0

unfoldable pub get_speculative_draft_tokens : Option Text → Value → Choice → ℕ
unfolding active_schedule lookup
get_speculative_draft_tokens env batch_size schedule =
    at_batch (active_schedule env schedule) (int_of batch_size)

-- `.to(dtype=torch.int64)` of a Boolean
abbrev pub to_int : Bool → ℕ
to_int true = 1
to_int false = 0

-- `torch.cumprod` along the candidates, from the product so far
unfoldable pub cumprod : ℕ → List ℕ → List ℕ
cumprod acc [] = []
cumprod acc (n ∷ ns) = (acc * n) ∷ cumprod (acc * n) ns

-- the mask of one sequence, from the comparisons with the threshold
unfoldable pub prefix_mask : List Bool → List Bool
unfolding cumprod
prefix_mask confident = map (λ n. not (n == 0)) (cumprod 1 (map to_int confident))

-- `mask.sum(dim=-1)`
unfoldable pub kept_count : List Bool → ℕ
kept_count mask = sum (map to_int mask)

-- `filter_speculative_candidates` of the comparisons of a batch: the masks and the counts
unfoldable pub filter_speculative_candidates : List (List Bool) → List (List Bool) × List ℕ
unfolding prefix_mask kept_count
filter_speculative_candidates confident =
    (map prefix_mask confident, map (λ row. kept_count (prefix_mask row)) confident)
