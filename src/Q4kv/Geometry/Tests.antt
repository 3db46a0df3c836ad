-- ===== src/Q4kv/Geometry/Tests.antt =====
-- Sizes and offsets of a page for four heads, and the theorems at one scale.
use vllm_exl.Prelude.{ℕ, ◌<◌, ◌≡◌, refl, inr, ok, raise, value_error, arith}
use vllm_exl.Q4kv.Geometry.Defs.{
  nvfp4_row_bytes, q4_pool_page_bytes, q4_pool_bytes_per_token, scale_block_offset, offset_row,
  offset_rows, scale_offset_table, flat_page_to_container, staging_page_bytes,
}
use vllm_exl.Q4kv.Geometry.Scales.{scale_block_offset-injective}

program : Unit {0}
unfolding nvfp4_row_bytes q4_pool_page_bytes q4_pool_bytes_per_token scale_block_offset offset_row
    offset_rows scale_offset_table flat_page_to_container staging_page_bytes
program = tt

row_bytes : nvfp4_row_bytes 128 ≡ 72
unfolding program
row_bytes = refl

page_bytes : q4_pool_page_bytes 4 128 ≡ ok 73728
unfolding program
page_bytes = refl

other_block : q4_pool_page_bytes 4 64 ≡ raise value_error
unfolding program
other_block = refl

per_token : q4_pool_bytes_per_token 4 ≡ 576
unfolding program
per_token = refl

-- token 5 and group 3 of V
swizzle : scale_block_offset 1 5 3 ≡ ok 45
unfolding program
swizzle = refl

container : flat_page_to_container 8192 ≡ (113, 56)
unfolding program
container = refl

scale_block_offset-injective_example :
    (o : ℕ) × (scale_block_offset 1 5 3 ≡ ok o)
    × (o < 1024)
    × ((t g : ℕ) → g < 8 → scale_block_offset 1 t g ≡ ok o → (t ≡ 5) × (g ≡ 3))
scale_block_offset-injective_example =
    scale_block_offset-injective 1 5 3 (inr refl) (omega arith) (omega arith)
