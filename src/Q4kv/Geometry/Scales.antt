-- ===== src/Q4kv/Geometry/Scales.antt =====
-- The places of the scales in the scale block of a slot.
use vllm_exl.Prelude.{
  ℕ, zero, suc, ◌+◌, ◌*◌, ◌/◌, ◌%◌, ◌<◌, ◌≡◌, ◌⊎◌, inl, inr, refl, sym, ◌∙◌, ◌==◌, [],
  if◌then◌else◌, ok, get_or, arith,
}
use vllm_exl.Q4kv.Geometry.Defs.{
  swizzled, scale_block_offset, offset_row, offset_rows, scale_offset_table,
}

swizzled-lt : (token group : ℕ) → token < 128 → group < 8 → swizzled token group < 1024
swizzled-lt token group h k = omega arith

-- the token and the group of a place
swizzled_inverse :
    (token group : ℕ)
    → group < 8
    → let o = swizzled token group in
      (o / 8 / 4 * 4 + o % 4 ≡ token) × (o / 8 % 4 * 2 + o / 4 % 2 ≡ group)
swizzled_inverse token group k = (omega arith, omega arith)

offset_row-get_or :
    (side token first n k : ℕ)
    → k < n
    → get_or (offset_row side token first n) k 0
      ≡ (if side == 0 then token * 8 + (first + k) else swizzled token (first + k))
unfolding offset_row
offset_row-get_or side token first zero k h = absurd (omega arith)
offset_row-get_or side token first (suc n) zero h =
    let e : first + 0 ≡ first = omega arith in rw e refl
offset_row-get_or side token first (suc n) (suc k) h =
    let e : first + suc k ≡ suc first + k = omega arith in
    rw e (offset_row-get_or side token (suc first) n k (omega arith))

offset_rows-get_or :
    (side first n k : ℕ)
    → k < n
    → get_or (offset_rows side first n) k [] ≡ offset_row side (first + k) 0 8
unfolding offset_rows
offset_rows-get_or side first zero k h = absurd (omega arith)
offset_rows-get_or side first (suc n) zero h = let e : first + 0 ≡ first = omega arith in rw e refl
offset_rows-get_or side first (suc n) (suc k) h =
    let e : first + suc k ≡ suc first + k = omega arith in
    rw e (offset_rows-get_or side (suc first) n k (omega arith))

-- For K and for V, the scale of each token and group of a page has a place of its own inside the
-- 1024 bytes of the scale block: two scales at one place are one scale.
pub scale_block_offset-injective :
    (side token group : ℕ)
    → (side ≡ 0) ⊎ (side ≡ 1)
    → token < 128
    → group < 8
    → (o : ℕ) × (scale_block_offset side token group ≡ ok o)
      × (o < 1024)
      × ((t g : ℕ) → g < 8 → scale_block_offset side t g ≡ ok o → (t ≡ token) × (g ≡ group))
unfolding scale_block_offset
scale_block_offset-injective side token group (inl e) h k = rw e (
  token * 8 + group,
  refl,
  omega arith,
  λ t g l m. let same : t * 8 + g ≡ token * 8 + group = ground arith in (omega arith, omega arith),
)
scale_block_offset-injective side token group (inr e) h k = rw e (
  swizzled token group,
  refl,
  swizzled-lt token group h k,
  λ t g l m.
      let same : swizzled t g ≡ swizzled token group = ground arith in
      let a = swizzled_inverse t g l in
      let b = swizzled_inverse token group k in
      let c : (swizzled t g / 8 / 4 * 4 + swizzled t g % 4 ≡ token)
          × (swizzled t g / 8 % 4 * 2 + swizzled t g / 4 % 2 ≡ group) =
        rw same b in
      (sym a.0 ∙ c.0, sym a.1 ∙ c.1),
)

-- The lookup table of either side has at each token and group the offset that
-- `scale_block_offset` computes.
pub scale_offset_table-scale_block_offset :
    (side tokens token group : ℕ)
    → (side ≡ 0) ⊎ (side ≡ 1)
    → token < tokens
    → group < 8
    → scale_block_offset side token group
      ≡ ok (get_or (get_or (scale_offset_table side tokens) token []) group 0)
unfolding scale_block_offset scale_offset_table
scale_offset_table-scale_block_offset side tokens token group s h k =
    let row = offset_rows-get_or side 0 tokens token h in
    let entry = offset_row-get_or side (0 + token) 0 8 group k in
    let t : 0 + token ≡ token = omega arith in
    let g : 0 + group ≡ group = omega arith in
    elim s [ inl e ↦ rw (row, entry, t, g, e) refl | inr e ↦ rw (row, entry, t, g, e) refl ]
