-- ===== src/Policy/V41/Budget.antt =====
-- The memory estimate and the two topologies of src/vllm_exl3/v41_context.py.
use native.Mathlib.Nat.{mul-mod_left}
use vllm_exl.Prelude.{
  exact-div, ℕ, zero, suc, ◌+◌, ◌*◌, ◌/◌, ◌%◌, ◌≤◌, ◌<◌, ◌≡◌, ◌⊎◌, refl, true, false, Option, none,
  some, ◌==◌, ℤ, pos, negsuc, ok, arith, Result-cases, inl, inr,
}
use vllm_exl.Prelude.Values.{
  Value, none_value, other_value, bool_value, int_value, str_value, int_of,
}
use vllm_exl.Policy.V41.Memory.{
  text_error, positive_int, compute_v41_logical_global_kv_bytes, with_backend, Estimate,
  estimate_v41_kv_cache, Topologies, plan_v41_moe_topologies,
}

text_error_lem : (o : Option ℤ) (n : ℕ) → text_error o ≡ ok n → 0 < n
text_error_lem none n h = absurd (ground arith)
text_error_lem (some z) n h = absurd (ground arith)

-- only positive ints pass, as they are
positive_int_lem : (v : Value) (n : ℕ) → positive_int v ≡ ok n → 0 < n
unfolding positive_int
positive_int_lem (bool_value b) n h = absurd (ground arith)
positive_int_lem (int_value (pos zero)) n h = absurd (ground arith)
positive_int_lem (int_value (pos (suc m))) n h = ground arith
positive_int_lem (int_value (negsuc m)) n h = absurd (ground arith)
positive_int_lem (str_value s) n h = text_error_lem (int_of (str_value s)) n h
positive_int_lem none_value n h = absurd (ground arith)
positive_int_lem other_value n h = absurd (ground arith)

positive_int_again : (n : ℕ) → 0 < n → positive_int (int_value (pos n)) ≡ ok n
unfolding positive_int
positive_int_again zero h = absurd (omega arith)
positive_int_again (suc n) h = refl

-- An estimate has the logical bytes of its context, which an allocation that was measured is never
-- below; it is qualified exactly when a measurement was given, and then the allocation is that of
-- the whole context.
pub estimate_v41_kv_cache-logical :
    (context_len : Value) (backend : Option Value) (e : Estimate)
    → estimate_v41_kv_cache context_len backend ≡ ok e
    → (positive_int context_len ≡ ok e.context_len)
      × (0 < e.context_len)
      × (2 * e.logical_global_kv_bytes ≡ e.context_len * ((288 + 68) * (3 + 2)))
      × ((e.capacity_qualified ≡ false) × (backend ≡ none) × (e.backend_allocated_kv_bytes ≡ none)
          ⊎ (bpt : ℕ) × (e.capacity_qualified ≡ true)
            × (e.backend_bytes_per_token ≡ some bpt)
            × (e.backend_allocated_kv_bytes ≡ some (e.context_len * bpt))
            × (890 ≤ bpt))
unfolding estimate_v41_kv_cache compute_v41_logical_global_kv_bytes
estimate_v41_kv_cache-logical context_len backend e h =
    elim (Result-cases (positive_int context_len)) [
      | inr (x, m) ↦ absurd (ground arith)
      | inl (c, m) ↦
          let some_context = positive_int_lem context_len c m in
          let again = positive_int_again c some_context in
          let made : with_backend backend c (c * 890) ≡ ok e = ground arith in
          rest c m some_context backend made
    ]
  where
    rest :
        (c : ℕ)
        → positive_int context_len ≡ ok c
        → 0 < c
        → (backend : Option Value) → with_backend backend c (c * 890) ≡ ok e
        → (positive_int context_len ≡ ok e.context_len)
          × (0 < e.context_len)
          × (2 * e.logical_global_kv_bytes ≡ e.context_len * ((288 + 68) * (3 + 2)))
          × ((e.capacity_qualified ≡ false)
                × (backend ≡ none)
                × (e.backend_allocated_kv_bytes ≡ none)
              ⊎ (bpt : ℕ) × (e.capacity_qualified ≡ true)
                × (e.backend_bytes_per_token ≡ some bpt)
                × (e.backend_allocated_kv_bytes ≡ some (e.context_len * bpt))
                × (890 ≤ bpt))
    rest c m p none h =
        (ground arith, ground arith, ground arith, inl (ground arith, refl, ground arith))
    rest c m p (some v) h = elim (Result-cases (positive_int v)) [
      | inr (x, n) ↦ absurd (ground arith)
      | inl (bpt, n) ↦ (
        ground arith,
        ground arith,
        ground arith,
        inr (bpt, ground arith, ground arith, ground arith, ground arith),
      )
    ]

padding : (n : ℕ) → (n ≤ (n + 127) / 128 * 128) × ((n + 127) / 128 * 128 < n + 128)
padding n = omega arith

-- Both topologies share out exactly the 384 experts and the width 2304: whole experts in one,
-- slices in the other, whose padded width is the next multiple of 128.
pub plan_v41_moe_topologies-shares :
    (tp_size : Value) (t : Topologies)
    → plan_v41_moe_topologies tp_size ≡ ok t
    → (positive_int tp_size ≡ ok t.tp_size)
      × (t.ep.experts_per_rank * t.tp_size ≡ 384)
      × (t.ep.expert_intermediate_local ≡ 2304)
      × (t.pure_moe_tp.experts_per_rank ≡ 384)
      × (t.pure_moe_tp.expert_intermediate_local * t.tp_size ≡ 2304)
      × (t.padded_intermediate_128 % 128 ≡ 0)
      × (t.pure_moe_tp.expert_intermediate_local ≤ t.padded_intermediate_128)
      × (t.padded_intermediate_128 < t.pure_moe_tp.expert_intermediate_local + 128)
unfolding plan_v41_moe_topologies
plan_v41_moe_topologies-shares tp_size t h = elim (Result-cases (positive_int tp_size)) [
  | inr (x, m) ↦ absurd (ground arith)
  | inl (tp, m) ↦
      let experts : (384 % tp == 0) ≡ true = ground arith in
      let width : (2304 % tp == 0) ≡ true = ground arith in
      let a = exact-div 384 tp experts in
      let b = exact-div 2304 tp width in
      let c = padding (2304 / tp) in
      let d = mul-mod_left ((2304 / tp + 127) / 128) 128 in
      (
        ground arith,
        ground arith,
        ground arith,
        ground arith,
        ground arith,
        ground arith,
        ground arith,
        ground arith,
      )
]
