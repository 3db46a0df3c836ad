-- ===== src/Q4kv/Geometry/Defs.antt =====
-- `nvfp4_row_bytes`, `q4_pool_page_bytes`, `q4_pool_bytes_per_token`, `scale_block_offset`,
-- `_scale_offset_table`, `flat_page_to_container` and `staging_page_bytes` of
-- src/vllm_exl3/minimax_q4kv_reference.py, with its constants written out. The cache of the table is left
-- out.
use vllm_exl.Prelude.{
  ℕ, zero, suc, ◌+◌, ◌*◌, ◌/◌, ◌%◌, not, ◌==◌, List, [], ◌∷◌, if◌then◌else◌, Result, ok, raise_if,
  value_error, ◌>>◌,
}

unfoldable pub nvfp4_row_bytes : ℕ → ℕ
nvfp4_row_bytes head_dim = head_dim / 2 + head_dim / 16

unfoldable pub q4_pool_page_bytes : ℕ → ℕ → Result ℕ
q4_pool_page_bytes num_kv_heads block_size = do
  raise_if (not (block_size == 128)) value_error
  ok (2 * num_kv_heads * block_size * 72)

unfoldable pub q4_pool_bytes_per_token : ℕ → ℕ
q4_pool_bytes_per_token num_kv_heads = 2 * num_kv_heads * 72

-- the place of a scale of V
abbrev pub swizzled : ℕ → ℕ → ℕ
swizzled token group = (token / 4 * 4 + group / 2) * 8 + (group % 2 * 4 + token % 4)

unfoldable pub scale_block_offset : ℕ → ℕ → ℕ → Result ℕ
scale_block_offset side token group =
    if side == 0
    then ok (token * 8 + group)
    else (raise_if (not (side == 1)) value_error >> ok (swizzled token group))

-- one row of the table
unfoldable pub offset_row : ℕ → ℕ → ℕ → ℕ → List ℕ
offset_row side token group zero = []
offset_row side token group (suc n) =
    (if side == 0 then token * 8 + group else swizzled token group)
    ∷ offset_row side token (suc group) n

unfoldable pub offset_rows : ℕ → ℕ → ℕ → List (List ℕ)
unfolding offset_row
offset_rows side token zero = []
offset_rows side token (suc n) = offset_row side token 0 8 ∷ offset_rows side (suc token) n

-- `_scale_offset_table`
unfoldable pub scale_offset_table : ℕ → ℕ → List (List ℕ)
unfolding offset_rows
scale_offset_table side tokens = offset_rows side 0 tokens

-- `flat_page_to_container` of one offset
unfoldable pub flat_page_to_container : ℕ → ℕ × ℕ
flat_page_to_container flat = (flat / 72, flat % 72)

unfoldable pub staging_page_bytes : ℕ → ℕ
staging_page_bytes num_kv_heads = num_kv_heads * 128 * 2 * 128 * 2
