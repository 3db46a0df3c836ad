-- ===== src/Tp/Tests.antt =====
-- The aligned split of DSV4.1's width 2304 over four ranks, and the theorems at it.
use vllm_exl.Prelude.{
  ℕ, suc, ◌+◌, ◌*◌, ◌/◌, ◌≤◌, ◌<◌, ◌≡◌, refl, arith, true, some, ok, raise, runtime_error,
}
use vllm_exl.Tp.Defs.{
  counts_from, counts, shard_of, aligned_tp_split, narrow_tp, moe_tp_rotation, chunk_of,
  shard_exl3_col, trellis,
}
use vllm_exl.Tp.Split.{start_of, aligned_tp_split-tiles}
use vllm_exl.Tp.Narrow.{columns_of, narrow_tp-columns}
use vllm_exl.Tp.Rotation.{chunk_of-bijective}

program : Unit {0}
unfolding counts_from counts shard_of aligned_tp_split narrow_tp moe_tp_rotation chunk_of
    shard_exl3_col
program = tt

rank_1 : aligned_tp_split 2304 1 4 128 ≡ ok (640, 640)
unfolding program
rank_1 = refl

rank_3 : aligned_tp_split 2304 3 4 128 ≡ ok (1792, 512)
unfolding program
rank_3 = refl

tiles_of_rank_1 : shard_exl3_col trellis 144 1 4 128 ≡ ok (40, 40)
unfolding program
tiles_of_rank_1 = refl

cut_block : shard_exl3_col trellis 36 1 4 128 ≡ raise runtime_error
unfolding program
cut_block = refl

aligned_tp_split-tiles_example :
    ((rank : ℕ)
      → rank < 4
      → (len : ℕ) × (aligned_tp_split (18 * 128) rank 4 128
          ≡ ok (start_of 18 4 rank * 128, len * 128))
        × (start_of 18 4 rank + len ≡ start_of 18 4 (suc rank))
        × (18 / 4 ≤ len)
        × (len ≤ 18 / 4 + 1))
    × (start_of 18 4 0 ≡ 0)
    × (start_of 18 4 4 ≡ 18)
aligned_tp_split-tiles_example = aligned_tp_split-tiles 18 128 4 (omega arith) (omega arith)

-- An alignment of 8 is not refused: of three tiles rank 0 of two gets 24 columns of the scale vector,
-- and one tile, which has 16.
cut_tile : (narrow_tp (3 * 16) 0 2 1 8 ≡ ok (0, 24)) × (narrow_tp 3 0 2 16 8 ≡ ok (0, 1))
unfolding program
cut_tile = (refl, refl)

narrow_tp-columns_example :
    narrow_tp (144 * 16) 1 4 1 (16 * 8) ≡ columns_of (narrow_tp 144 1 4 16 (16 * 8))
narrow_tp-columns_example = narrow_tp-columns 144 1 4 8 (omega arith)

chunk_of-bijective_example :
    (rank : ℕ) × (rank < 4)
    × (chunk_of (moe_tp_rotation true (some 7) 4) 4 rank ≡ 2)
    × ((other : ℕ)
        → other < 4
        → chunk_of (moe_tp_rotation true (some 7) 4) 4 other ≡ 2
        → other ≡ rank)
chunk_of-bijective_example = chunk_of-bijective true (some 7) 4 2 (omega arith)
