-- ===== src/Policy/Prefill/Plans.antt =====
-- When a grouped-prefill plan is eligible, and what its window and its scratch are then.
use native.Mathlib.Nat.{div-add-mod, mod-lt, mul-mod_left}
use vllm_exl.Prelude.{
  ℕ, zero, suc, ◌+◌, ◌-◌, ◌*◌, ◌/◌, ◌%◌, ◌≤◌, ◌<◌, ◌≡◌, ◌↔◌, refl, Bool, true, false, Option, List,
  ok, Result-cases, clamp, ℤ, pos, negsuc, ◌⊎◌, arith, Bool-cases, inl, inr, sym,
}
use vllm_exl.Prelude.Text.{Text, text, text_eq, strip, lower}
use vllm_exl.Prelude.Values.{
  Value, none_value, other_value, bool_value, int_value, str_value, number, not_positive,
}
use vllm_exl.Policy.Env.{env_enabled, positive_int_env}
use vllm_exl.Policy.Prefill.Defs.{
  grouped_prefill_max_rows, grouped_prefill_scratch_bytes, size_of, GroupedPrefillPlan, Arguments,
  Sizes, checked, limit_of, limit_checked, sizes_of, elem, reason_of, reason_eligible, ceil_div,
  window_of, plan_with, windowed, requested_or, plan_grouped_prefill, Reason,
}

limit_checked-le : (z : ℤ) (tile limit : ℕ) → limit_checked z tile ≡ ok limit → tile ≤ limit
unfolding limit_checked
limit_checked-le (pos zero) tile limit h = absurd (ground arith)
limit_checked-le (pos (suc n)) tile limit h = ground arith
limit_checked-le (negsuc n) tile limit h = absurd (ground arith)

-- the limit holds a tile
limit_of-le :
    (env : Option Text) (v : Value) (tile limit : ℕ) → limit_of env v tile ≡ ok limit → tile ≤ limit
unfolding limit_of grouped_prefill_max_rows
limit_of-le env none_value tile limit h =
    limit_checked-le (positive_int_env env (pos 8192)) tile limit h
limit_of-le env (int_value z) tile limit h = limit_checked-le z tile limit h
limit_of-le env (bool_value b) tile limit h = absurd (ground arith)
limit_of-le env other_value tile limit h = absurd (ground arith)
limit_of-le env (str_value s) tile limit h = absurd (ground arith)

positive_clamp : (z : ℤ) → not_positive z ≡ false → 0 < clamp z
positive_clamp (pos zero) h = absurd (ground arith)
positive_clamp (pos (suc n)) h = omega arith
positive_clamp (negsuc n) h = absurd (ground arith)

checked_pos :
    (a : Arguments) (s : Sizes)
    → checked a ≡ ok s
    → (sizes_of a ≡ s) × (0 < s.tile_rows) × (0 < s.hidden_size) × (0 < s.intermediate_size)
unfolding checked
checked_pos a s h =
    let same : sizes_of a ≡ s = ground arith in
    let tile : not_positive (number a.tile_rows) ≡ false = ground arith in
    let hidden : not_positive (number a.hidden_size) ≡ false = ground arith in
    let inter : not_positive (number a.intermediate_size) ≡ false = ground arith in
    rw (sym same) (refl, positive_clamp _ tile, positive_clamp _ hidden, positive_clamp _ inter)

-- what a plan was made of
pub plan_parts :
    (env env' : Option Text) (a : Arguments) (p : GroupedPrefillPlan)
    → plan_grouped_prefill env env' a ≡ ok p
    → (s : Sizes) × (limit : ℕ) × (checked a ≡ ok s)
      × (limit_of env' a.max_rows s.tile_rows ≡ ok limit)
      × (windowed
            (requested_or (env_enabled env false) a.requested)
            (reason_of
              (requested_or (env_enabled env false) a.requested)
              a.supported_bits
              a.codebook
              a.has_mul1
              s)
            a.codebook
            s
            limit
          ≡ ok p)
unfolding plan_grouped_prefill
plan_parts env env' a p h = elim (Result-cases (checked a)) [
  | inr (e, m) ↦ absurd (ground arith)
  | inl (s, m) ↦ elim (Result-cases (limit_of env' a.max_rows s.tile_rows)) [
    | inr (e, n) ↦ absurd (ground arith)
    | inl (limit, n) ↦ (s, limit, m, n, ground arith)
  ]
]

-- the conditions of an eligible plan
abbrev pub Conditions : Bool → List ℕ → Text → Bool → Sizes → Type 0
Conditions requested supported codebook has_mul1 s =
    (requested ≡ true)
    × (elem s.bits supported ≡ true)
    × (text_eq (lower (strip codebook)) (text "mcg") ≡ true)
    × (has_mul1 ≡ false)
    × (s.hidden_size % 256 ≡ 0)
    × (s.intermediate_size % 128 ≡ 0)
    × (s.fat_threshold < s.routed_rows)

reason_of-eligible :
    (requested : Bool) (supported : List ℕ) (codebook : Text) (has_mul1 : Bool) (s : Sizes)
    → (reason_eligible (reason_of requested supported codebook has_mul1 s) ≡ true)
      ↔ Conditions requested supported codebook has_mul1 s
unfolding reason_of
reason_of-eligible requested supported codebook has_mul1 s = ground arith

-- the conditions are met exactly when the plan is eligible, and then this is the plan
windowed_lem :
    (requested : Bool) (reason : Reason) (codebook : Text) (s : Sizes) (limit : ℕ)
    (p : GroupedPrefillPlan)
    → 0 < s.hidden_size
    → 0 < s.intermediate_size
    → windowed requested reason codebook s limit ≡ ok p
    → let window = window_of s.routed_rows s.tile_rows limit in
      (reason_eligible reason ≡ false) × (plan_with requested reason codebook s 0 0 0 ≡ p)
      ⊎ (reason_eligible reason ≡ true)
        × (plan_with requested reason codebook s window
              (ceil_div s.routed_rows window)
              (window * (s.hidden_size + 3 * s.intermediate_size) * 2)
            ≡ p)
unfolding windowed grouped_prefill_scratch_bytes size_of
windowed_lem requested reason codebook s limit p hidden inter h =
    elim (Bool-cases (reason_eligible reason)) [
      | inl t ↦ inr (t, ground arith)
      | inr f ↦ inl (f, ground arith)
    ]

ceil_div_bounds : (a b : ℕ) → 0 < b → (a ≤ ceil_div a b * b) × (ceil_div a b * b < a + b)
unfolding ceil_div
ceil_div_bounds a b h = omega (arith, div-add-mod (a + b - 1) b, mod-lt (a + b - 1) h)

-- the window: whole tiles, no more than the limit, and at least one
window_of_bounds :
    (rows tile limit : ℕ)
    → 0 < tile
    → tile ≤ limit
    → 0 < rows
    → (window_of rows tile limit % tile ≡ 0)
      × (window_of rows tile limit ≤ limit)
      × (0 < window_of rows tile limit)
      × (window_of rows tile limit < rows + tile)
unfolding window_of
window_of_bounds rows tile limit t l r =
    let need = ceil_div_bounds rows tile t in
    let whole = div-add-mod limit tile in
    let rest = mod-lt limit t in
    let a = mul-mod_left (ceil_div rows tile) tile in
    let b = mul-mod_left (limit / tile) tile in
    (ground arith, omega arith, omega arith, omega arith)

module _ (env env' : Option Text) (a : Arguments) (p : GroupedPrefillPlan)
    (h : plan_grouped_prefill env env' a ≡ ok p) where
  -- A plan that is returned is eligible exactly when it was requested and the bit width, the
  -- codebook, the marker, the two dimensions and the number of routed rows all meet the kernel's
  -- conditions.
  pub plan_grouped_prefill-eligible :
      (s : Sizes) × (checked a ≡ ok s)
      × ((p.eligible ≡ true) ↔ Conditions p.requested a.supported_bits a.codebook a.has_mul1 s)
  plan_grouped_prefill-eligible =
      let (s, limit, m, n, w) = plan_parts env env' a p h in
      let (same, tile, hidden, inter) = checked_pos a s m in
      let asked = requested_or (env_enabled env false) a.requested in
      let reason = reason_of asked a.supported_bits a.codebook a.has_mul1 s in
      let made = windowed_lem asked reason a.codebook s limit p hidden inter w in
      let conditions = reason_of-eligible asked a.supported_bits a.codebook a.has_mul1 s in
      let e : p.eligible ≡ reason_eligible reason = ground arith in
      let r : p.requested ≡ asked = ground arith in (s, m, rw (e, r) conditions)

  -- A plan that is not eligible asks for nothing. An eligible plan has a positive window of whole
  -- tiles within the limit, just enough windows for the routed rows, and the scratch of one window.
  pub plan_grouped_prefill_bounds :
      (p.eligible ≡ false) × (p.window_rows ≡ 0) × (p.windows ≡ 0) × (p.scratch_bytes ≡ 0)
      ⊎ (p.eligible ≡ true)
        × (s : Sizes) × (limit : ℕ) × (checked a ≡ ok s)
        × (limit_of env' a.max_rows s.tile_rows ≡ ok limit)
        × (0 < p.window_rows)
        × (p.window_rows % p.tile_rows ≡ 0)
        × (p.window_rows ≤ limit)
        × (p.routed_rows ≤ p.windows * p.window_rows)
        × (p.windows * p.window_rows < p.routed_rows + p.window_rows)
        × (p.scratch_bytes ≡ p.window_rows * (s.hidden_size + 3 * s.intermediate_size) * 2)
  plan_grouped_prefill_bounds =
      let (s, limit, m, n, w) = plan_parts env env' a p h in
      let (same, tile, hidden, inter) = checked_pos a s m in
      let asked = requested_or (env_enabled env false) a.requested in
      let reason = reason_of asked a.supported_bits a.codebook a.has_mul1 s in
      elim (windowed_lem asked reason a.codebook s limit p hidden inter w) [
        | inl (f, made) ↦ inl (ground arith, ground arith, ground arith, ground arith)
        | inr (t, made) ↦
            let rows : 0 < s.routed_rows = omega (
              arith,
              ((reason_of-eligible asked a.supported_bits a.codebook a.has_mul1 s).0 t).6,
            ) in
            let le = limit_of-le env' a.max_rows s.tile_rows limit n in
            let (whole, within, some_rows, under) =
              window_of_bounds s.routed_rows s.tile_rows limit tile le rows in
            let (enough, tight) =
              ceil_div_bounds s.routed_rows (window_of s.routed_rows s.tile_rows limit) some_rows in
            inr (rw (sym made) (t, s, limit, m, n, some_rows, whole, within, enough, tight, refl))
      ]
