-- ===== src/Q4kv/Plans/Tests.antt =====
-- A chunk of two requests, the first of which exceeds the cap, and the theorems at it.
use vllm_exl.Prelude.{
  ◌≡◌, refl, List, [], ◌∷◌, pos, negsuc, some, ok, raise, value_error, index_error, arith, All,
}
use vllm_exl.Q4kv.Slices.Defs.{
  any_rows, count, break_row, chunk_loop, range_end, range_loop, greedy_row_slices,
  first_row_at_or_after, searchsorted, bisect_right, union_curve, range_end_fast,
  greedy_row_slices_fast,
}
use vllm_exl.Q4kv.Plans.Defs.{
  Chunk, query_row, req_of_q, phys, req_row, selected_page_bitmap, nonzero, Slice, range,
  range_slices, all_slices, non_decreasing, in_table, indexable, plan_with, plan_prefill_slices,
  accumulate, all_positive, maximum, prefill_slice_metadata,
}
use vllm_exl.Q4kv.Plans.Fast.{split_queries, split_requests, plan_prefill_slices_fast}
use vllm_exl.Q4kv.Plans.Equal.{plan_prefill_slices_fast-eq}
use vllm_exl.Q4kv.Plans.Cover.{Follows, Capped, plan_prefill_slices-Follows}

program : Unit {0}
unfolding any_rows count break_row chunk_loop range_end range_loop greedy_row_slices
    first_row_at_or_after searchsorted bisect_right union_curve range_end_fast
    greedy_row_slices_fast query_row req_of_q phys req_row selected_page_bitmap nonzero range
    range_slices all_slices non_decreasing in_table indexable plan_with plan_prefill_slices
    split_queries split_requests plan_prefill_slices_fast accumulate all_positive maximum
    prefill_slice_metadata
program = tt

-- request 0 has three queries over pages 3, 4 and 5, request 1 has two over page 0
abbrev chunk : Chunk
chunk = record {
  nb = 6;
  slots = 8;
  tokens = 128;
  width = 72;
  max_blocks = 3;
  block_table = (pos 3 ∷ pos 4 ∷ pos 5 ∷ []) ∷ (pos 0 ∷ negsuc 0 ∷ pos 9 ∷ []) ∷ [];
  topk_idx =
      (pos 0 ∷ negsuc 0 ∷ [])
      ∷ (pos 0 ∷ pos 1 ∷ [])
      ∷ (pos 1 ∷ pos 2 ∷ [])
      ∷ (pos 0 ∷ pos 1 ∷ [])
      ∷ (pos 2 ∷ negsuc 0 ∷ [])
      ∷ [];
  cu_seqlens_q = 0 ∷ 3 ∷ 5 ∷ [];
  num_kv_heads = 4;
  max_pages = 2;
}

abbrev slices : List Slice
slices =
    record { reqs = 0 ∷ []; q = (0, 2); pages = 3 ∷ 4 ∷ [] }
    ∷ record { reqs = 0 ∷ []; q = (2, 3); pages = 4 ∷ 5 ∷ [] }
    ∷ record { reqs = 1 ∷ []; q = (3, 5); pages = 0 ∷ [] }
    ∷ []

planned : plan_prefill_slices chunk ≡ ok (some slices)
unfolding program
planned = refl

planned_fast : plan_prefill_slices_fast chunk ≡ ok (some slices)
unfolding program
planned_fast = refl

uncovered : plan_prefill_slices (record chunk { cu_seqlens_q = 0 ∷ 3 ∷ 4 ∷ [] }) ≡ raise value_error
unfolding program
uncovered = refl

-- a block that no row has
outside : plan_prefill_slices (record chunk { topk_idx = (pos 3 ∷ []) ∷ [] }) ≡ raise index_error
unfolding program
outside = refl

-- the second slice starts two queries into the request
metadata :
    prefill_slice_metadata
      (record { reqs = 0 ∷ []; q = (2, 3); pages = [] })
      (0 ∷ 3 ∷ 5 ∷ [])
      (100 ∷ 7 ∷ [])
    ≡ ok (record { cu_new = 0 ∷ 1 ∷ []; prefix_new = 102 ∷ []; max_query_len = 1 })
unfolding program
metadata = refl

plan_prefill_slices-Follows_example :
    (ss : List Slice) × (plan_prefill_slices chunk ≡ ok (some ss))
    × Follows 0 5 ss
    × All (Capped 2) ss
unfolding program
plan_prefill_slices-Follows_example = plan_prefill_slices-Follows chunk refl (omega arith) refl refl

plan_prefill_slices_fast-eq_example : plan_prefill_slices_fast chunk ≡ plan_prefill_slices chunk
plan_prefill_slices_fast-eq_example = plan_prefill_slices_fast-eq chunk
