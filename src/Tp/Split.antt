-- ===== src/Tp/Split.antt =====
-- The shards of `aligned_tp_split`.
use native.Mathlib.Nat.{div-add-mod, mod-lt, mul-div_cancel, mul-mod_left, zero-add}
use vllm_exl.Prelude.{
  ℕ, zero, suc, ◌+◌, ◌*◌, ◌/◌, ◌%◌, ◌≤◌, ◌<◌, ◌≡◌, refl, ◌∙◌, min, arith, ltb, ◌==◌, if◌then◌else◌,
  ok, some, get_elem?, take, sum, false,
}
use vllm_exl.Tp.Defs.{counts_from, counts, shard_of, aligned_tp_split}

sum-take-counts_from :
    (base rem r n k : ℕ)
    → k ≤ n
    → sum (take k (counts_from base rem r n)) + min r rem ≡ k * base + min (r + k) rem
unfolding counts_from
sum-take-counts_from base rem r n zero h = omega arith
sum-take-counts_from base rem r zero (suc k) h = absurd (omega arith)
sum-take-counts_from base rem r (suc n) (suc k) h =
    ground (arith, sum-take-counts_from base rem (suc r) n k)

get_elem?-counts_from :
    (base rem r n k : ℕ)
    → k < n
    → get_elem? (counts_from base rem r n) k ≡ some (base + (if ltb (r + k) rem then 1 else 0))
unfolding counts_from
get_elem?-counts_from base rem r zero k h = absurd (omega arith)
get_elem?-counts_from base rem r (suc n) zero h = rw zero_right refl
  where
    zero_right : r + 0 ≡ r
    zero_right = omega arith
get_elem?-counts_from base rem r (suc n) (suc k) h =
    let e : r + suc k ≡ suc r + k = omega arith in
    rw e (get_elem?-counts_from base rem (suc r) n k (omega arith))

-- where the shard of a rank starts, in blocks
abbrev pub start_of : ℕ → ℕ → ℕ → ℕ
start_of blocks tp_size rank = rank * (blocks / tp_size) + min rank (blocks % tp_size)

sum-take-counts :
    (blocks tp_size rank : ℕ)
    → rank ≤ tp_size
    → sum (take rank (counts blocks tp_size)) ≡ start_of blocks tp_size rank
unfolding counts
sum-take-counts blocks tp_size rank h =
    omega (arith, sum-take-counts_from (blocks / tp_size) (blocks % tp_size) 0 tp_size rank h)

get_elem?-counts :
    (blocks tp_size rank : ℕ)
    → rank < tp_size
    → get_elem? (counts blocks tp_size) rank
      ≡ some (blocks / tp_size + (if ltb rank (blocks % tp_size) then 1 else 0))
unfolding counts
get_elem?-counts blocks tp_size rank h =
    get_elem?-counts_from (blocks / tp_size) (blocks % tp_size) 0 tp_size rank h ∙ rw zero-add refl

-- what a rank gets of a size that is a multiple of `align`
pub aligned_tp_split-shard :
    (blocks align tp_size rank : ℕ)
    → 0 < align
    → rank < tp_size
    → aligned_tp_split (blocks * align) rank tp_size align
      ≡ ok (
        start_of blocks tp_size rank * align,
        (blocks / tp_size + (if ltb rank (blocks % tp_size) then 1 else 0)) * align,
      )
unfolding aligned_tp_split shard_of
aligned_tp_split-shard blocks align tp_size rank a h =
    let some_align : (align == 0) ≡ false = ground arith in
    let whole : blocks * align % align ≡ 0 = mul-mod_left blocks align in
    let some_ranks : (tp_size == 0) ≡ false = ground arith in
    let quotient = mul-div_cancel blocks a in
    rw
      (
        some_align,
        whole,
        some_ranks,
        quotient,
        shard_of,
        get_elem?-counts blocks tp_size rank h,
        quotient,
        sum-take-counts blocks tp_size rank (omega arith),
      )
      refl

-- The shards of the ranks follow one another from 0 to the whole size: rank `r` holds the blocks
-- from `start_of r` to `start_of (r + 1)`, whole blocks only, and two ranks differ by one block at
-- most.
pub aligned_tp_split-tiles :
    (blocks align tp_size : ℕ)
    → 0 < align
    → 0 < tp_size
    → ((rank : ℕ)
        → rank < tp_size
        → (len : ℕ) × (aligned_tp_split (blocks * align) rank tp_size align
            ≡ ok (start_of blocks tp_size rank * align, len * align))
          × (start_of blocks tp_size rank + len ≡ start_of blocks tp_size (suc rank))
          × (blocks / tp_size ≤ len)
          × (len ≤ blocks / tp_size + 1))
      × (start_of blocks tp_size 0 ≡ 0)
      × (start_of blocks tp_size tp_size ≡ blocks)
aligned_tp_split-tiles blocks align tp_size a t =
    let rem = mod-lt blocks t in
    let whole = div-add-mod blocks tp_size in
    (
      λ rank h. (
        blocks / tp_size + (if ltb rank (blocks % tp_size) then 1 else 0),
        aligned_tp_split-shard blocks align tp_size rank a h,
        ground arith,
        ground arith,
        ground arith,
      ),
      omega arith,
      omega arith,
    )
