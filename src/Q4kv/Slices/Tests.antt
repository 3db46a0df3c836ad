-- ===== src/Q4kv/Slices/Tests.antt =====
-- Runs of the two greedy planners, and their theorems at a concrete bitmap.
use vllm_exl.Prelude.{ℕ, ◌≡◌, refl, List, [], ◌∷◌, some, ◌==◌, ◌||◌, ltb}
use vllm_exl.Q4kv.Slices.Defs.{
  Row, any_rows, count, break_row, chunk_loop, range_end, range_loop, greedy_row_slices,
  first_row_at_or_after, searchsorted, bisect_right, union_curve, range_end_fast,
  greedy_row_slices_fast,
}
use vllm_exl.Q4kv.Slices.Ranges.{
  IsPartition, greedy_row_slices-IsPartition, greedy_row_slices_fast-eq,
}

program : Unit {0}
unfolding any_rows count break_row chunk_loop range_end range_loop greedy_row_slices
    first_row_at_or_after searchsorted bisect_right union_curve range_end_fast
    greedy_row_slices_fast
program = tt

-- five rows over four pages; the fourth row alone exceeds a cap of 2
abbrev bitmap : List Row
bitmap =
    (λ p. p == 0) ∷ (λ p. p == 1) ∷ (λ p. p == 2) ∷ (λ p. ltb 0 p) ∷ (λ p. p == 0 || p == 3) ∷ []

legacy_run : greedy_row_slices 4 2 bitmap ≡ some ((0, 2) ∷ (2, 3) ∷ (3, 4) ∷ (4, 5) ∷ [])
unfolding program
legacy_run = refl

fast_run : greedy_row_slices_fast 4 2 bitmap ≡ some ((0, 2) ∷ (2, 3) ∷ (3, 4) ∷ (4, 5) ∷ [])
unfolding program
fast_run = refl

greedy_row_slices-IsPartition_example :
    (ranges : List (ℕ × ℕ)) × (greedy_row_slices 4 2 bitmap ≡ some ranges)
    × IsPartition 4 2 bitmap 0 ranges
greedy_row_slices-IsPartition_example = greedy_row_slices-IsPartition 4 2 bitmap

greedy_row_slices_fast-eq_example : greedy_row_slices_fast 4 2 bitmap ≡ greedy_row_slices 4 2 bitmap
greedy_row_slices_fast-eq_example = greedy_row_slices_fast-eq 4 2 bitmap
