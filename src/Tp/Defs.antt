-- ===== src/Tp/Defs.antt =====
-- `aligned_tp_split`, `moe_tp_rotation`, `_narrow_tp`, `shard_exl3_col` and `shard_exl3_row` of
-- src/vllm_exl3/exl3.py, and the use of the rotation in `_load_exl3`. A shard of a dimension is
-- its offset and its length. `align` is the value of VLLM_EXL3_MOE_TP_ALIGN where it is positive,
-- and 0 otherwise.
use vllm_exl.Prelude.{
  ℕ, zero, suc, ◌+◌, ◌*◌, ◌/◌, ◌%◌, Bool, ◌&&◌, ◌||◌, not, Option, none, some, List, [], ◌∷◌, ltb,
  leb, ◌==◌, if◌then◌else◌, Result, ok, raise, raise_if, value_error, runtime_error, index_error,
  zero_division_error, ◌>>=◌, ◌>>◌, get_elem?, take, sum,
}

-- `[base + (1 if r < rem else 0) for r in range(r, r + n)]`
unfoldable pub counts_from : ℕ → ℕ → ℕ → ℕ → List ℕ
counts_from base rem r zero = []
counts_from base rem r (suc n) =
    (base + (if ltb r rem then 1 else 0)) ∷ counts_from base rem (suc r) n

-- `counts` of `aligned_tp_split`, for `blocks` blocks
unfoldable pub counts : ℕ → ℕ → List ℕ
counts blocks tp_size = counts_from (blocks / tp_size) (blocks % tp_size) 0 tp_size

-- `sum(counts[:tp_rank]) * align, counts[tp_rank] * align`
unfoldable pub shard_of : List ℕ → ℕ → ℕ → Result (ℕ × ℕ)
shard_of cs tp_rank align = elim (get_elem? cs tp_rank) [
  | none ↦ raise index_error
  | some c ↦ ok (sum (take tp_rank cs) * align, c * align)
]

unfoldable pub aligned_tp_split : ℕ → ℕ → ℕ → ℕ → Result (ℕ × ℕ)
aligned_tp_split size tp_rank tp_size align = do
  raise_if (align == 0) zero_division_error
  raise_if (not (size % align == 0)) value_error
  raise_if (tp_size == 0) zero_division_error
  shard_of (counts (size / align) tp_size) tp_rank align

-- `_narrow_tp`: offset and length along the dimension
unfoldable pub narrow_tp : ℕ → ℕ → ℕ → ℕ → ℕ → Result (ℕ × ℕ)
narrow_tp size tp_rank tp_size unit align =
    if leb tp_size 1
    then ok (0, size)
    else if ltb 0 align
    then (do
      raise_if (not (size * unit % align == 0)) runtime_error
      shard ← aligned_tp_split (size * unit) tp_rank tp_size align
      ok (shard.0 / unit, shard.1 / unit))
    else (do
      raise_if (not (size % tp_size == 0)) value_error
      ok (size / tp_size * tp_rank, size / tp_size))

pub data Suffix : Type 0 where
  trellis suh svh marker : Suffix

-- what a shard function narrows: the trellis dimension, in tiles, or the scale vector, in columns;
-- any other tensor is kept whole
unfoldable pub shard_exl3_col : Suffix → ℕ → ℕ → ℕ → ℕ → Result (ℕ × ℕ)
unfolding narrow_tp
shard_exl3_col trellis size tp_rank tp_size align = narrow_tp size tp_rank tp_size 16 align
shard_exl3_col svh size tp_rank tp_size align = narrow_tp size tp_rank tp_size 1 align
shard_exl3_col suh size tp_rank tp_size align = ok (0, size)
shard_exl3_col marker size tp_rank tp_size align = ok (0, size)

unfoldable pub shard_exl3_row : Suffix → ℕ → ℕ → ℕ → ℕ → Result (ℕ × ℕ)
unfolding narrow_tp
shard_exl3_row trellis size tp_rank tp_size align = narrow_tp size tp_rank tp_size 16 align
shard_exl3_row suh size tp_rank tp_size align = narrow_tp size tp_rank tp_size 1 align
shard_exl3_row svh size tp_rank tp_size align = ok (0, size)
shard_exl3_row marker size tp_rank tp_size align = ok (0, size)

-- `moe_tp_rotation`, from VLLM_EXL3_MOE_TP_ROTATE and the number after `layers.` in the name
unfoldable pub moe_tp_rotation : Bool → Option ℕ → ℕ → ℕ
moe_tp_rotation rotate layer tp_size =
    if not rotate || leb tp_size 1
    then 0
    else elim layer [ none ↦ 0 | some index ↦ index % tp_size ]

-- the chunk that a rank loads, `_load_exl3`
unfoldable pub chunk_of : ℕ → ℕ → ℕ → ℕ
chunk_of rotation tp_size tp_rank =
    if ltb 1 tp_size && not (rotation == 0) then (tp_rank + rotation) % tp_size else tp_rank
