-- ===== src/Q4kv/Slices/Legacy.antt =====
-- The chunked scan of `_greedy_row_slices`, against row-by-row absorption.
use vllm_exl.Prelude.{
  ℕ, zero, suc, ◌+◌, ◌-◌, ◌*◌, ◌≤◌, ◌<◌, ◌≡◌, refl, ap, min, List, [], ◌∷◌, arith, Bool-cases, inl,
  inr, ltb, leb, leb→le, ltb→lt, length, drop, get_or, some, length-drop,
}
use native.Mathlib.Nat.{zero-add, suc-add}
use vllm_exl.Q4kv.Slices.Defs.{
  Row, empty, union, any_rows, count, rows_between, break_row, chunk_loop, range_end,
}
use vllm_exl.Q4kv.Slices.Absorb.{
  absorb, absorb-le, absorb_chunk, absorb_break, absorb_fits, absorb_stops, absorb_over,
}

pub drop-eq-get_or :
    (i : ℕ) (bitmap : List Row)
    → i < length bitmap
    → drop i bitmap ≡ get_or bitmap i empty ∷ drop (suc i) bitmap
drop-eq-get_or i [] h = absurd (omega arith)
drop-eq-get_or zero (r ∷ rows) h = refl
drop-eq-get_or (suc i) (r ∷ rows) h = drop-eq-get_or i rows (omega arith)

drop-drop : (m e : ℕ) (bitmap : List Row) → drop m (drop e bitmap) ≡ drop (e + m) bitmap
drop-drop m zero bitmap = rw zero-add refl
drop-drop zero (suc e) [] = rw suc-add refl
drop-drop (suc m) (suc e) [] = rw suc-add refl
drop-drop m (suc e) (r ∷ rows) = rw suc-add (drop-drop m e rows)

module _ (nb max_pages : ℕ) (bitmap : List Row) where
  -- `break_row` stops after the rows that are absorbed.
  break_row-absorb :
      (u : Row) (i rounds : ℕ)
      → i + rounds ≤ length bitmap
      → absorb nb max_pages u (drop i bitmap) < rounds
      → break_row nb max_pages bitmap u i rounds ≡ i + absorb nb max_pages u (drop i bitmap)
  unfolding break_row
  break_row-absorb u i zero h k = absurd (omega arith)
  break_row-absorb u i (suc rounds) h k =
      let r = get_or bitmap i empty in
      let rest = drop (suc i) bitmap in
      let d = drop-eq-get_or i bitmap (omega arith) in
      elim (Bool-cases (ltb max_pages (count nb (union u r)))) [
        | inl t ↦ rw (t, d, absorb_stops nb max_pages u r rest (ltb→lt _ _ t)) (omega arith)
        | inr g ↦
            let step = absorb_fits nb max_pages u r rest (ground arith) in
            let k' : suc (absorb nb max_pages (union u r) rest) < suc rounds = rw (← step, ← d) k in
            let ih = break_row-absorb (union u r) (suc i) rounds (omega arith) (omega arith) in
            rw (g, d, step, ih) (omega arith)
      ]

  -- a chunk from `e` to `nxt`, whose union with `u` fits
  chunk_whole :
      (u : Row) (e nxt : ℕ)
      → e ≤ nxt
      → nxt ≤ length bitmap
      → count nb (union u (any_rows (rows_between bitmap e nxt))) ≤ max_pages
      → e + absorb nb max_pages u (drop e bitmap)
        ≡ nxt
          + absorb nb max_pages (union u (any_rows (rows_between bitmap e nxt))) (drop nxt bitmap)
  chunk_whole u e nxt h k f =
      let whole =
        absorb_chunk nb max_pages (nxt - e) u (drop e bitmap) (omega (arith, length-drop e bitmap))
          f in
      let e' : e + (nxt - e) ≡ nxt = omega arith in rw (whole, drop-drop, e') (omega arith)

  -- and one whose union does not
  chunk_part :
      (u : Row) (e nxt : ℕ)
      → e ≤ nxt
      → nxt ≤ length bitmap
      → count nb u ≤ max_pages
      → max_pages < count nb (union u (any_rows (rows_between bitmap e nxt)))
      → break_row nb max_pages bitmap u e (nxt - e) ≡ e + absorb nb max_pages u (drop e bitmap)
  chunk_part u e nxt h k c f = break_row-absorb u e (nxt - e) (omega arith) (
      absorb_break nb max_pages (nxt - e) u (drop e bitmap) c (omega (arith, length-drop e bitmap))
        f)

  chunk_loop-absorb :
      (fuel : ℕ) (u : Row) (e step : ℕ)
      → e ≤ length bitmap
      → 0 < step
      → length bitmap - e < fuel
      → count nb u ≤ max_pages
      → chunk_loop nb max_pages bitmap fuel u e step
        ≡ some (e + absorb nb max_pages u (drop e bitmap))
  unfolding chunk_loop
  chunk_loop-absorb zero u e step h s f c = absurd (omega arith)
  chunk_loop-absorb (suc fuel) u e step h s f c =
      let n = length bitmap in
      let nxt = min (e + step) n in
      let probe = union u (any_rows (rows_between bitmap e nxt)) in
      elim (Bool-cases (ltb e n)) [
        | inr g ↦
            let least = absorb-le nb max_pages u (drop e bitmap) in
            let left = length-drop e bitmap in
            let over : n ≤ e = ground arith in rw g (ap some (omega arith))
        | inl t ↦
            let before = ltb→lt e n t in
            elim (Bool-cases (leb (count nb probe) max_pages)) [
              | inl t' ↦
                  let fits = leb→le _ _ t' in
                  let whole = chunk_whole u e nxt (omega arith) (omega arith) fits in
                  rw (t, t', whole)
                    (chunk_loop-absorb fuel probe nxt (min (step * 2) 512) (omega arith)
                      (omega arith) (omega arith) fits)
              | inr g ↦
                  rw (t, g)
                    (ap some (chunk_part u e nxt (omega arith) (omega arith) c (ground arith)))
            ]
      ]

  -- The end of a legacy range: one row, and the rows that it absorbs.
  pub range_end-absorb :
      (start : ℕ)
      → start < length bitmap
      → range_end nb max_pages bitmap start
        ≡ some
            (suc start + absorb nb max_pages (get_or bitmap start empty) (drop (suc start) bitmap))
  unfolding range_end
  range_end-absorb start h =
      let u = get_or bitmap start empty in
      let rest = drop (suc start) bitmap in
      let n = length bitmap in
      elim (Bool-cases (ltb max_pages (count nb u))) [
        | inl t ↦ rw (t, absorb_over nb max_pages u rest (ltb→lt _ _ t)) (ap some (omega arith))
        | inr g ↦
            rw g (
              chunk_loop-absorb (suc n) u (suc start) 8 h (omega arith) (omega arith)
                (ground arith))
      ]
