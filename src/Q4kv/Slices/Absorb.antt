-- ===== src/Q4kv/Slices/Absorb.antt =====
-- The reference for both planners: how many of the next rows fit one after the other.
use vllm_exl.Prelude.{
  ℕ, zero, suc, ◌+◌, ◌≤◌, ◌<◌, ◌≡◌, refl, ap, List, [], ◌∷◌, arith, Bool-cases, inl, inr,
  if◌then◌else◌, leb, leb→le, le→leb, sym, ◌∙◌, length, take, drop,
}
use native.Mathlib.Nat.{le_trans, suc-add}
use vllm_exl.Q4kv.Slices.Defs.{Row, empty, union, any_rows, count}
use vllm_exl.Q4kv.Slices.Pages.{Within-left, count_mono, union_assoc, union-empty}

module _ (nb max_pages : ℕ) where
  -- rows are added to `u` one by one while the union fits
  unfoldable pub absorb : Row → List Row → ℕ
  absorb u [] = 0
  absorb u (r ∷ rows) =
      let rest = absorb (union u r) rows in
      if leb (count nb (union u r)) max_pages then suc rest else 0

  pub absorb-le : (u : Row) (rows : List Row) → absorb u rows ≤ length rows
  unfolding absorb
  absorb-le u [] = omega arith
  absorb-le u (r ∷ rows) = ground (arith, absorb-le (union u r) rows)

  pub absorb_fits :
      (u r : Row) (rows : List Row)
      → count nb (union u r) ≤ max_pages
      → absorb u (r ∷ rows) ≡ suc (absorb (union u r) rows)
  unfolding absorb
  absorb_fits u r rows h = rw (le→leb _ _ h)

  pub absorb_stops :
      (u r : Row) (rows : List Row) → max_pages < count nb (union u r) → absorb u (r ∷ rows) ≡ 0
  unfolding absorb
  absorb_stops u r rows h = ground arith

  -- A chunk whose union fits is absorbed whole.
  pub absorb_chunk :
      (m : ℕ) (u : Row) (rows : List Row)
      → m ≤ length rows
      → count nb (union u (any_rows (take m rows))) ≤ max_pages
      → absorb u rows ≡ m + absorb (union u (any_rows (take m rows))) (drop m rows)
  unfolding any_rows
  absorb_chunk zero u rows h f = rw union-empty (omega arith)
  absorb_chunk (suc m) u [] h f = absurd (omega arith)
  absorb_chunk (suc m) u (r ∷ rows) h f =
      let more = take m rows in
      let e = union_assoc u r (any_rows more) in
      let fits : count nb (union u r) ≤ max_pages =
        le_trans (count_mono nb _ _ (Within-left (union u r) (any_rows more))) (rw e f) in
      let ih = absorb_chunk m (union u r) rows (omega arith) (rw e f) in
      absorb_fits u r rows fits ∙ rw (← e) (ap suc ih ∙ sym (suc-add m _))

  -- A chunk whose union does not fit is not.
  pub absorb_break :
      (m : ℕ) (u : Row) (rows : List Row)
      → count nb u ≤ max_pages
      → m ≤ length rows
      → max_pages < count nb (union u (any_rows (take m rows)))
      → absorb u rows < m
  unfolding absorb any_rows
  absorb_break zero u rows c h f =
      absurd (omega (arith, count_mono nb (union u empty) u (λ p k. ground arith)))
  absorb_break (suc m) u [] c h f = absurd (omega arith)
  absorb_break (suc m) u (r ∷ rows) c h f =
      let e = union_assoc u r (any_rows (take m rows)) in
      elim (Bool-cases (leb (count nb (union u r)) max_pages)) [
        | inl t ↦
            rw t
              (omega (arith, absorb_break m (union u r) rows (leb→le _ _ t) (omega arith) (rw e f)))
        | inr g ↦ rw g (omega arith)
      ]

  -- Rows that do not fit alone absorb nothing.
  pub absorb_over : (u : Row) (rows : List Row) → max_pages < count nb u → absorb u rows ≡ 0
  unfolding absorb
  absorb_over u [] h = refl
  absorb_over u (r ∷ rows) h =
      absorb_stops u r rows (omega (arith, count_mono nb u (union u r) (Within-left u r)))

  -- What is absorbed fits.
  pub absorb-fits_all :
      (u : Row) (rows : List Row)
      → count nb u ≤ max_pages
      → count nb (union u (any_rows (take (absorb u rows) rows))) ≤ max_pages
  unfolding absorb any_rows
  absorb-fits_all u [] h = rw union-empty h
  absorb-fits_all u (r ∷ rows) h = elim (Bool-cases (leb (count nb (union u r)) max_pages)) [
    | inl t ↦ let ih = absorb-fits_all (union u r) rows (leb→le _ _ t) in rw (t, ← union_assoc) ih
    | inr g ↦ rw (g, union-empty) h
  ]

  -- One row more does not.
  pub absorb-maximal :
      (u : Row) (rows : List Row)
      → absorb u rows < length rows
      → max_pages < count nb (union u (any_rows (take (suc (absorb u rows)) rows)))
  unfolding absorb any_rows
  absorb-maximal u [] h = absurd (omega arith)
  absorb-maximal u (r ∷ rows) h = elim (Bool-cases (leb (count nb (union u r)) max_pages)) [
    | inl t ↦
        let ih = absorb-maximal (union u r) rows (ground arith) in
        rw (t, ← union_assoc u r (any_rows (take (suc (absorb (union u r) rows)) rows))) ih
    | inr g ↦ rw (g, union-empty r) (ground arith)
  ]
