-- ===== src/Spec/Order.antt =====
-- Which schedules `_validated_speculative_schedule` lets through.
use vllm_exl.Prelude.{
  ℕ, ◌≤◌, ◌<◌, ◌≡◌, true, ◌⊎◌, inl, inr, Option, none, some, List, [], ◌∷◌, All, arith, Bool-cases,
  Option-cases, sym, ℤ, pos, negsuc,
}
use vllm_exl.Prelude.Text.{Text, split, strip}
use vllm_exl.Spec.Defs.{
  Range, Entry, Schedule, entries, not_a_sequence, range_of, entry_range, normalized, insert_sorted,
  sort, apart, unless_overlap, validated, default_schedule, range_leb, or_default, parsed,
  parse_speculative_schedule, Choice, unset, string, object, active_schedule, entry_value, fields,
  scalar, parse_entries, unless_empty,
}

abbrev pub Among : Range → List Range → Type 0
Among r [] = ⊥
Among r (s ∷ ss) = (r ≡ s) ⊎ Among r ss

pub All-Among : (P : Range → Type 0) (r : Range) (ss : List Range) → All P ss → Among r ss → P r
All-Among P r [] h m = absurd m
All-Among P r (s ∷ ss) h (inl e) = rw e h.0
All-Among P r (s ∷ ss) h (inr m) = All-Among P r ss h.1 m

-- batch sizes count from 1 and a range is not empty
abbrev pub Proper : Range → Type 0
Proper r = (1 ≤ r.min_bs) × (r.min_bs ≤ r.max_bs)

-- every range is proper and ends before the later ones begin
abbrev pub Ordered : List Range → Type 0
Ordered [] = Unit
Ordered (r ∷ rs) = Proper r × All (λ s. r.max_bs < s.min_bs) rs × Ordered rs

range_of-Proper : (a b c : Option ℤ) (r : Range) → range_of a b c ≡ some r → Proper r
unfolding range_of
range_of-Proper (some (pos a)) (some (pos b)) (some (pos c)) r h = ground arith
range_of-Proper (some (pos a)) (some (pos b)) (some (negsuc c)) r h = absurd (ground arith)
range_of-Proper (some (pos a)) (some (pos b)) none r h = absurd (ground arith)
range_of-Proper (some (pos a)) (some (negsuc b)) c r h = absurd (ground arith)
range_of-Proper (some (pos a)) none c r h = absurd (ground arith)
range_of-Proper (some (negsuc a)) b c r h = absurd (ground arith)
range_of-Proper none b c r h = absurd (ground arith)

entry_range-Proper : (e : Entry) (r : Range) → entry_range e ≡ some r → Proper r
unfolding entry_range
entry_range-Proper scalar r h = absurd (ground arith)
entry_range-Proper (fields []) r h = absurd (ground arith)
entry_range-Proper (fields (a ∷ [])) r h = absurd (ground arith)
entry_range-Proper (fields (a ∷ b ∷ [])) r h = absurd (ground arith)
entry_range-Proper (fields (a ∷ b ∷ c ∷ [])) r h =
    range_of-Proper (entry_value a) (entry_value b) (entry_value c) r h
entry_range-Proper (fields (a ∷ b ∷ c ∷ d ∷ vs)) r h = absurd (ground arith)

normalized-Proper : (es : List Entry) (rs : List Range) → normalized es ≡ some rs → All Proper rs
unfolding normalized
normalized-Proper [] rs h = rw (sym e) tt
  where
    e : [] ≡ rs
    e = ground arith
normalized-Proper (e ∷ es) rs h = elim (Option-cases (entry_range e)) [
  | inl m ↦ absurd (ground arith)
  | inr (r, m) ↦ elim (Option-cases (normalized es)) [
    | inl n ↦ absurd (ground arith)
    | inr (ss, n) ↦
        let result : r ∷ ss ≡ rs = ground arith in
        rw (sym result) (entry_range-Proper e r m, normalized-Proper es ss n)
  ]
]

module _ (P : Range → Type 0) where
  insert_sorted-All : (r : Range) (ss : List Range) → P r → All P ss → All P (insert_sorted r ss)
  unfolding insert_sorted
  insert_sorted-All r [] h k = (h, tt)
  insert_sorted-All r (s ∷ ss) h k = elim (Bool-cases (range_leb r s)) [
    | inl t ↦ rw t (h, k)
    | inr f ↦ rw f (k.0, insert_sorted-All r ss h k.1)
  ]

  sort-All : (rs : List Range) → All P rs → All P (sort rs)
  unfolding sort
  sort-All [] h = tt
  sort-All (r ∷ rs) h = insert_sorted-All r (sort rs) h.0 (sort-All rs h.1)

insert_sorted-Among :
    (x r : Range) (ss : List Range) → Among x (r ∷ ss) → Among x (insert_sorted r ss)
unfolding insert_sorted
insert_sorted-Among x r [] h = h
insert_sorted-Among x r (s ∷ ss) h = elim (Bool-cases (range_leb r s)) [
  | inl t ↦ rw t h
  | inr f ↦ rw f (elim h [
    | inl e ↦ inr (insert_sorted-Among x r ss (inl e))
    | inr (inl e) ↦ inl e
    | inr (inr m) ↦ inr (insert_sorted-Among x r ss (inr m))
  ])
]

-- sorting loses no range
pub sort-Among : (x : Range) (rs : List Range) → Among x rs → Among x (sort rs)
unfolding sort
sort-Among x [] m = absurd m
sort-Among x (r ∷ rs) (inl e) = insert_sorted-Among x r (sort rs) (inl e)
sort-Among x (r ∷ rs) (inr m) = insert_sorted-Among x r (sort rs) (inr (sort-Among x rs m))

later :
    (m n : ℕ) (ss : List Range) → m ≤ n → All (λ s. n < s.min_bs) ss → All (λ s. m < s.min_bs) ss
later m n [] h k = tt
later m n (s ∷ ss) h k = (omega arith, later m n ss h k.1)

-- neighbours apart are ranges apart
apart-Ordered : (rs : List Range) → All Proper rs → apart rs ≡ true → Ordered rs
unfolding apart
apart-Ordered [] h k = tt
apart-Ordered (r ∷ []) h k = (h.0, tt, tt)
apart-Ordered (r ∷ s ∷ ss) h k =
    let rest = apart-Ordered (s ∷ ss) h.1 (ground arith) in
    let next : r.max_bs < s.min_bs = ground arith in
    (h.0, (next, later r.max_bs s.max_bs ss (omega arith) rest.1), rest)

unless_overlap-Ordered :
    (rs ss : List Range) → All Proper rs → unless_overlap rs ≡ some ss → (rs ≡ ss) × Ordered ss
unless_overlap-Ordered rs ss h k = elim (Bool-cases (apart rs)) [
  | inl t ↦ let same : rs ≡ ss = ground arith in (same, rw (sym same) (apart-Ordered rs h t))
  | inr f ↦ absurd (ground arith)
]

-- A schedule that is accepted is the sorted list of its entries, and its ranges are ordered.
pub validated-sort :
    (es : List Entry) (ss : List Range)
    → validated (entries es) ≡ some ss
    → (rs : List Range) × (normalized es ≡ some rs) × (sort rs ≡ ss) × Ordered ss
unfolding validated
validated-sort [] ss h = absurd (ground arith)
validated-sort (e ∷ es) ss h = elim (Option-cases (normalized (e ∷ es))) [
  | inl m ↦ absurd (ground arith)
  | inr (rs, m) ↦
      let accepted : unless_overlap (sort rs) ≡ some ss = ground arith in
      let (same, ordered) =
        unless_overlap-Ordered (sort rs) ss (sort-All Proper rs (normalized-Proper (e ∷ es) rs m))
          accepted in
      (rs, m, same, ordered)
]

-- A schedule that `_validated_speculative_schedule` accepts has positive batch sizes, no empty
-- range, and its ranges are sorted and disjoint, whatever the order of its entries was.
pub validated-Ordered : (s : Schedule) (ss : List Range) → validated s ≡ some ss → Ordered ss
unfolding validated
validated-Ordered not_a_sequence ss h = absurd (ground arith)
validated-Ordered (entries es) ss h = (validated-sort es ss h).3

default-Ordered : Ordered default_schedule
default-Ordered = omega arith

or_default-Ordered : (s : Schedule) → Ordered (or_default (validated s))
or_default-Ordered s = elim (Option-cases (validated s)) [
  | inl m ↦ rw (m, or_default) default-Ordered
  | inr (ss, m) ↦ rw (m, or_default) (validated-Ordered s ss m)
]

parse-Ordered : (s : Text) → Ordered (parse_speculative_schedule s)
unfolding parse_speculative_schedule
parse-Ordered s = by_case (strip s) _ (of_entries (parse_entries (split 44 s)))
  where
    of_entries : (es : Option (List Entry)) → Ordered (parsed es)
    of_entries none = default-Ordered
    of_entries (some es) = or_default-Ordered (entries es)

    by_case : (t : Text) (rs : List Range) → Ordered rs → Ordered (unless_empty t rs)
    by_case [] rs o = default-Ordered
    by_case (c ∷ t) rs o = o

-- The schedule in force is ordered for every value of the variable, however malformed, and every
-- argument.
pub active_schedule-Ordered :
    (env : Option Text) (choice : Choice) → Ordered (active_schedule env choice)
unfolding active_schedule
active_schedule-Ordered none unset = default-Ordered
active_schedule-Ordered (some configured) unset = parse-Ordered configured
active_schedule-Ordered env (string s) = parse-Ordered s
active_schedule-Ordered env (object s) = or_default-Ordered s
