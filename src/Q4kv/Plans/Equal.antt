-- ===== src/Q4kv/Plans/Equal.antt =====
-- The plan of `plan_prefill_slices_fast` and the plan of `plan_prefill_slices`.
use vllm_exl.Prelude.{
  ℕ, suc, ◌-◌, ◌*◌, ◌≡◌, refl, ap, ◌∙◌, ◌==◌, Bool, true, false, ◌&&◌, ◌||◌, not, Option, none,
  some, List, [], ◌∷◌, map, ltb, length, get_or, Bool-cases, inl, inr,
}
use vllm_exl.Q4kv.Slices.Defs.{Row, rows_between, greedy_row_slices, greedy_row_slices_fast}
use vllm_exl.Q4kv.Slices.Ranges.{greedy_row_slices_fast-eq}
use vllm_exl.Q4kv.Plans.Defs.{
  Chunk, Slice, selected_page_bitmap, covers_queries, non_decreasing, range, row_union, query_slice,
  query_slices, range_slices, chained, all_slices, slices_of, plan_with, plan_prefill_slices,
}
use vllm_exl.Q4kv.Plans.Fast.{
  split_queries, split_request, extended, split_requests, all_requests, plan_prefill_slices_fast,
}

split_queries_lem :
    (nb r lo : ℕ) (q_bitmap : List Row) (ranges : List (ℕ × ℕ))
    → split_queries nb r lo q_bitmap ranges ≡ map (query_slice nb r lo q_bitmap) ranges
unfolding split_queries
split_queries_lem nb r lo q_bitmap [] = refl
split_queries_lem nb r lo q_bitmap (q ∷ ranges) =
    ap (λ ss. query_slice nb r lo q_bitmap q ∷ ss) (split_queries_lem nb r lo q_bitmap ranges)

split_request_lem :
    (nb r lo : ℕ) (q_bitmap : List Row) (o : Option (List (ℕ × ℕ)))
    → split_request nb r lo q_bitmap o ≡ query_slices nb r lo q_bitmap o
split_request_lem nb r lo q_bitmap none = refl
split_request_lem nb r lo q_bitmap (some ranges) =
    ap some (split_queries_lem nb r lo q_bitmap ranges)

module _ (nb max_pages : ℕ) (cu : List ℕ) (req_bitmap rows : List Row) where
  extended_lem :
      (a b : Option (List Slice))
      → extended a b ≡ chained greedy_row_slices nb max_pages cu req_bitmap rows a b
  extended_lem none b = refl
  extended_lem (some ss) none = refl
  extended_lem (some ss) (some ts) = refl

  joined :
      (a a' b b' : Option (List Slice))
      → a ≡ a'
      → b ≡ b'
      → extended a b ≡ chained greedy_row_slices nb max_pages cu req_bitmap rows a' b'
  joined a a' b b' h k = rw (h, k) (extended_lem a' b')

  -- the slice of a range that is not split
  abbrev whole : ℕ → ℕ → Slice
  whole rs re = record {
    reqs = range rs (re - rs);
    q = (get_or cu rs 0, get_or cu re 0);
    pages = row_union nb req_bitmap rs re;
  }

  -- the slices of a request that is split
  split_lem :
      (r lo : ℕ) (q_bitmap : List Row)
      → split_request nb r lo q_bitmap (greedy_row_slices_fast nb max_pages q_bitmap)
        ≡ query_slices nb r lo q_bitmap (greedy_row_slices nb max_pages q_bitmap)
  split_lem r lo q_bitmap =
      split_request_lem nb r lo q_bitmap (greedy_row_slices_fast nb max_pages q_bitmap)
      ∙ ap (query_slices nb r lo q_bitmap) (greedy_row_slices_fast-eq nb max_pages q_bitmap)

  split_requests_lem :
      (ranges : List (ℕ × ℕ))
      → split_requests nb max_pages cu req_bitmap rows ranges
        ≡ all_slices greedy_row_slices nb max_pages cu req_bitmap rows ranges
  unfolding split_requests all_slices range_slices
  split_requests_lem [] = refl
  split_requests_lem ((rs, re) ∷ ranges) =
      let lo = get_or cu rs 0 in
      let q_bitmap = rows_between rows lo (get_or cu (suc rs) 0) in
      elim (Bool-cases (re - rs == 1 && ltb max_pages (length (row_union nb req_bitmap rs re)))) [
        | inl t ↦
            rw (split_requests, t)
              (joined _ _ _ _ (split_lem rs lo q_bitmap) (split_requests_lem ranges))
        | inr f ↦
            rw (split_requests, f)
              (joined (some (whole rs re ∷ [])) _ _ _ refl (split_requests_lem ranges))
      ]

  all_requests_lem :
      (o : Option (List (ℕ × ℕ)))
      → all_requests nb max_pages cu req_bitmap rows o
        ≡ slices_of greedy_row_slices nb max_pages cu req_bitmap rows o
  all_requests_lem none = refl
  all_requests_lem (some ranges) = split_requests_lem ranges

not-three : (a b c : Bool) → (not a || not b || not c) ≡ not (a && b && c)
not-three true true c = refl
not-three true false c = refl
not-three false b c = refl

not-two : (a b : Bool) → (not a || not b) ≡ not (a && b)
not-two true b = refl
not-two false b = refl

-- The fast plan, from its own body, is the legacy plan, on every chunk, errors included.
pub plan_prefill_slices_fast-eq : (c : Chunk) → plan_prefill_slices_fast c ≡ plan_prefill_slices c
unfolding plan_prefill_slices_fast plan_prefill_slices plan_with
plan_prefill_slices_fast-eq c =
    let (req_bitmap, rows) = selected_page_bitmap c in
    rw
      (
        not-three (c.slots == 2 * c.num_kv_heads) (c.tokens == 128) (c.width == 72),
        not-two (covers_queries c.cu_seqlens_q (length c.topk_idx)) (non_decreasing c.cu_seqlens_q),
        greedy_row_slices_fast-eq c.nb c.max_pages req_bitmap,
        all_requests_lem c.nb c.max_pages c.cu_seqlens_q req_bitmap rows
            (greedy_row_slices c.nb c.max_pages req_bitmap),
      )
      refl
