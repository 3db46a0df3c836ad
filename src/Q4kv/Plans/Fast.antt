-- ===== src/Q4kv/Plans/Fast.antt =====
-- `plan_prefill_slices_fast` of src/vllm_exl3/minimax_q4kv_reference.py, statement by statement: a
-- body of its own, whose loops append to the slices. It shares `_selected_page_bitmap` and the tests
-- on `cu_seqlens_q` with `plan_prefill_slices`.
use vllm_exl.Prelude.{
  ℕ, suc, ◌+◌, ◌-◌, ◌*◌, ◌==◌, true, false, ◌&&◌, ◌||◌, not, Option, none, some, List, [], ◌∷◌,
  ◌++◌, ltb, length, get_or, Result, ok, value_error, index_error, raise_if, ◌>>◌,
}
use vllm_exl.Q4kv.Slices.Defs.{Row, rows_between, greedy_row_slices_fast}
use vllm_exl.Q4kv.Plans.Defs.{
  Chunk, Slice, selected_page_bitmap, row_union, range, indexable, covers_queries, non_decreasing,
}

-- the loop over the query ranges of a request `r`, whose queries start at `lo`
unfoldable pub split_queries : ℕ → ℕ → ℕ → List Row → List (ℕ × ℕ) → List Slice
split_queries nb r lo q_bitmap [] = []
split_queries nb r lo q_bitmap ((qs, qe) ∷ ranges) =
    record { reqs = r ∷ []; q = (lo + qs, lo + qe); pages = row_union nb q_bitmap qs qe }
    ∷ split_queries nb r lo q_bitmap ranges

abbrev pub split_request : ℕ → ℕ → ℕ → List Row → Option (List (ℕ × ℕ)) → Option (List Slice)
split_request nb r lo q_bitmap none = none
split_request nb r lo q_bitmap (some ranges) = some (split_queries nb r lo q_bitmap ranges)

-- the slices of a round, before those of the rounds that follow
abbrev pub extended : Option (List Slice) → Option (List Slice) → Option (List Slice)
extended none rest = none
extended (some ss) none = none
extended (some ss) (some rest) = some (ss ++ rest)

module _ (nb max_pages : ℕ) (cu : List ℕ) (req_bitmap rows : List Row) where
  -- the loop over the ranges of requests
  unfoldable pub split_requests : List (ℕ × ℕ) → Option (List Slice)
  unfolding split_queries
  split_requests [] = some []
  split_requests ((rs, re) ∷ ranges) =
      let rest = split_requests ranges in
      let pages = row_union nb req_bitmap rs re in
      elim (re - rs == 1 && ltb max_pages (length pages)) [
        | true ↦
            let lo = get_or cu rs 0 in
            let q_bitmap = rows_between rows lo (get_or cu (suc rs) 0) in
            extended
              (split_request nb rs lo q_bitmap (greedy_row_slices_fast nb max_pages q_bitmap)) rest
        | false ↦
            extended
              (some (
                record {
                  reqs = range rs (re - rs);
                  q = (get_or cu rs 0, get_or cu re 0);
                  pages = pages;
                }
                ∷ []))
              rest
      ]

  abbrev pub all_requests : Option (List (ℕ × ℕ)) → Option (List Slice)
  all_requests none = none
  all_requests (some ranges) = split_requests ranges

unfoldable pub plan_prefill_slices_fast : Chunk → Result (Option (List Slice))
unfolding split_requests
plan_prefill_slices_fast c =
    let req_bitmap = (selected_page_bitmap c).0 in
    let rows = (selected_page_bitmap c).1 in
    let cu = c.cu_seqlens_q in
    do
      raise_if (not (c.slots == 2 * c.num_kv_heads) || not (c.tokens == 128) || not (c.width == 72))
          value_error
      raise_if (ltb c.max_pages 1) value_error
      raise_if (not (indexable c)) index_error
      raise_if (not (covers_queries cu (length c.topk_idx)) || not (non_decreasing cu)) value_error
      ok (
          all_requests c.nb c.max_pages cu req_bitmap rows
            (greedy_row_slices_fast c.nb c.max_pages req_bitmap))
