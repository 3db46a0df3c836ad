-- ===== src/Tp/Narrow.antt =====
-- `_narrow_tp` on the tiles of a trellis and on the columns of its scale vector.
use native.Mathlib.Nat.{div-one, mul-div_cancel}
use vllm_exl.Prelude.{
  ℕ, ◌*◌, ◌/◌, ◌%◌, ◌<◌, ◌≡◌, refl, sym, ap, List, arith, ltb, leb, ◌==◌, Result, ok, raise, ◌>>=◌,
  Option-cases, get_elem?, take, sum, true, Bool-cases, inl, inr, lt→ltb,
}
use vllm_exl.Tp.Defs.{counts, shard_of, aligned_tp_split, narrow_tp}

-- a shard of tiles, in columns
abbrev pub columns_of : Result (ℕ × ℕ) → Result (ℕ × ℕ)
columns_of (ok (o, l)) = ok (o * 16, l * 16)
columns_of (raise e) = raise e

-- both numbers of a shard are whole blocks
abbrev Whole : ℕ → Result (ℕ × ℕ) → Type 0
Whole align (ok (o, l)) = (m n : ℕ) × (o ≡ m * align) × (l ≡ n * align)
Whole align (raise e) = Unit

shard_of-Whole : (cs : List ℕ) (rank align : ℕ) → Whole align (shard_of cs rank align)
unfolding shard_of
shard_of-Whole cs rank align = elim (Option-cases (get_elem? cs rank)) [
  | inl m ↦ rw (m, Whole) tt
  | inr (c, m) ↦ rw (m, Whole) (sum (take rank cs), c, refl, refl)
]

aligned_tp_split-Whole :
    (size rank tp_size align : ℕ) → Whole align (aligned_tp_split size rank tp_size align)
unfolding aligned_tp_split
aligned_tp_split-Whole size rank tp_size align = elim (Bool-cases (align == 0)) [
  | inl t ↦ rw (t, Whole) tt
  | inr f ↦ elim (Bool-cases (size % align == 0)) [
    | inr g ↦ rw (f, g, Whole) tt
    | inl t ↦ elim (Bool-cases (tp_size == 0)) [
      | inl u ↦ rw (f, t, u, Whole) tt
      | inr g ↦ rw (f, t, g) (shard_of-Whole (counts (size / align) tp_size) rank align)
    ]
  ]
]

sixteen : 0 < 16
sixteen = omega arith

-- whole blocks of 16 columns give the same columns in tiles
to_tiles :
    (r : Result (ℕ × ℕ)) (k : ℕ)
    → Whole (16 * k) r
    → (r >>= λ s. ok (s.0 / 1, s.1 / 1)) ≡ columns_of (r >>= λ s. ok (s.0 / 16, s.1 / 16))
to_tiles (ok (o, l)) k (m, n, e, f) =
    let by_tiles = λ (a m : ℕ) (q : a ≡ m * (16 * k)).
      let tiles : m * (16 * k) ≡ m * k * 16 = grind arith in
      let exact : a / 1 ≡ a / 16 * 16 =
        rw (q, tiles, div-one) (ap (λ x. x * 16) (sym (mul-div_cancel (m * k) sixteen))) in
      exact in
    let a = by_tiles o m e in let b = by_tiles l n f in cc
to_tiles (raise e) k h = refl

-- Where VLLM_EXL3_MOE_TP_ALIGN is a multiple of 16 above 0, the columns of a scale vector that a rank
-- gets by the aligned split are the columns of the trellis tiles that it gets, or both loads are
-- refused with one error.
pub narrow_tp-columns :
    (tiles rank tp_size k : ℕ)
    → 0 < k
    → narrow_tp (tiles * 16) rank tp_size 1 (16 * k)
      ≡ columns_of (narrow_tp tiles rank tp_size 16 (16 * k))
unfolding narrow_tp
narrow_tp-columns tiles rank tp_size k h = elim (Bool-cases (leb tp_size 1)) [
  | inl t ↦ rw t refl
  | inr f ↦
      let one : tiles * 16 * 1 ≡ tiles * 16 = omega arith in
      let on : ltb 0 (16 * k) ≡ true = lt→ltb 0 (16 * k) (omega arith) in
      elim (Bool-cases (tiles * 16 % (16 * k) == 0)) [
        | inl t ↦
            rw (f, on, one, t)
              (to_tiles (aligned_tp_split (tiles * 16) rank tp_size (16 * k)) k
                (aligned_tp_split-Whole (tiles * 16) rank tp_size (16 * k)))
        | inr g ↦ rw (f, on, one, g) refl
      ]
]
