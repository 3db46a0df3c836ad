-- ===== src/Spec/Lookup.antt =====
-- What `get_speculative_draft_tokens` returns.
use vllm_exl.Prelude.{
  ℕ, suc, ◌<◌, ◌≡◌, refl, true, false, ◌⊎◌, inl, inr, Option, some, List, [], ◌∷◌, All, arith,
  Bool-cases, pos, sym, ◌∙◌,
}
use vllm_exl.Prelude.Text.{Text}
use vllm_exl.Prelude.Values.{Value, int_of}
use vllm_exl.Spec.Defs.{
  Range, Entry, entries, normalized, validated, Choice, active_schedule, covers, lookup,
  get_speculative_draft_tokens,
}
use vllm_exl.Spec.Order.{
  Among, All-Among, Ordered, validated-sort, sort-Among, active_schedule-Ordered,
}

-- in an ordered schedule a range that covers the batch is the one that is found
lookup-covers :
    (rs : List Range) (r : Range) (n : ℕ)
    → Ordered rs
    → Among r rs
    → covers r n ≡ true
    → lookup rs n ≡ r.draft_tokens
unfolding lookup
lookup-covers [] r n o m h = absurd m
lookup-covers (s ∷ ss) r n o (inl e) h =
    let hit : covers s n ≡ true = rw (sym e) h in rw (hit, e) refl
lookup-covers (s ∷ ss) r n o (inr m) h =
    let after : s.max_bs < r.min_bs = All-Among (λ t. s.max_bs < t.min_bs) r ss o.1 m in
    let miss : covers s n ≡ false = ground arith in rw miss (lookup-covers ss r n o.2 m h)

-- what the loop finds, or why it finds nothing
lookup_cases :
    (rs : List Range) (n : ℕ)
    → (lookup rs n ≡ 0) × All (λ r. covers r n ≡ false) rs
      ⊎ (r : Range) × Among r rs × (covers r n ≡ true) × (lookup rs n ≡ r.draft_tokens)
unfolding lookup
lookup_cases [] n = inl (refl, tt)
lookup_cases (s ∷ ss) n = elim (Bool-cases (covers s n)) [
  | inl t ↦ inr (s, inl refl, t, rw t refl)
  | inr f ↦ elim (lookup_cases ss n) [
    | inl (z, h) ↦ inl (rw f z, (f, h))
    | inr (r, m, h, e) ↦ inr (r, inr m, h, rw f e)
  ]
]

-- An accepted schedule, in whatever order it was written, gives each batch size the draft tokens
-- of the entry that covers it.
pub lookup-validated :
    (es : List Entry) (rs ss : List Range) (r : Range) (n : ℕ)
    → normalized es ≡ some rs
    → validated (entries es) ≡ some ss
    → Among r rs
    → covers r n ≡ true
    → lookup ss n ≡ r.draft_tokens
lookup-validated es rs ss r n h k m c =
    let (rs', h', sorted, ordered) = validated-sort es ss k in
    let same : rs' ≡ rs = ground arith in
    let there : Among r ss = rw (sym sorted, same) (sort-Among r rs m) in
    lookup-covers ss r n ordered there c

-- For every environment, argument and positive batch size, either the result is 0 and no range of
-- the schedule in force covers the batch, or a range does, the result is its draft tokens, and every
-- range that covers the batch has the same number.
pub get_speculative_draft_tokens_lem :
    (env : Option Text) (choice : Choice) (batch_size : Value) (n : ℕ)
    → int_of batch_size ≡ some (pos (suc n))
    → (get_speculative_draft_tokens env batch_size choice ≡ 0)
        × All (λ r. covers r (suc n) ≡ false) (active_schedule env choice)
      ⊎ (r : Range) × Among r (active_schedule env choice)
        × (covers r (suc n) ≡ true)
        × (get_speculative_draft_tokens env batch_size choice ≡ r.draft_tokens)
        × ((s : Range)
            → Among s (active_schedule env choice)
            → covers s (suc n) ≡ true
            → s.draft_tokens ≡ r.draft_tokens)
unfolding get_speculative_draft_tokens
get_speculative_draft_tokens_lem env choice batch_size n h =
    let rs = active_schedule env choice in
    let found = λ (s : Range). lookup-covers rs s (suc n) (active_schedule-Ordered env choice) in
    rw h (elim (lookup_cases rs (suc n)) [
      | inl miss ↦ inl miss
      | inr (r, m, c, e) ↦ inr (r, m, c, e, λ s i j. sym (found s i j) ∙ e)
    ])
