-- ===== src/Q4kv/Slices/Curve.antt =====
-- The union curve of `_greedy_row_slices_fast`, against the counts of unions.
use mathlib.Core.Bool.{false≢true}
use mathlib.Core.Path.{fun_ext}
use vllm_exl.Prelude.{
  ℕ, suc, ◌+◌, ◌-◌, ◌≤◌, ◌<◌, ◌≡◌, refl, ap, ◌∙◌, min, true, false, List, [], ◌∷◌, arith,
  Bool-cases, inl, inr, if◌then◌else◌, ltb, leb, leb→le, le→leb, ◌==◌, length, drop, get_or, some,
  length-drop,
}
use vllm_exl.Q4kv.Slices.Defs.{
  Row, empty, union, count, first_row_at_or_after, searchsorted, bisect_right, union_curve,
  range_end_fast,
}
use vllm_exl.Q4kv.Slices.Pages.{count-empty}
use vllm_exl.Q4kv.Slices.Absorb.{absorb, absorb_fits, absorb_stops, absorb_over}
use vllm_exl.Q4kv.Slices.Legacy.{drop-eq-get_or}

-- the sizes of the unions of `u` with the first 0, 1, … rows
curve : ℕ → Row → List Row → List ℕ
curve nb u [] = count nb u ∷ []
curve nb u (r ∷ rows) = count nb u ∷ curve nb (union u r) rows

bisect_right-curve :
    (nb max_pages : ℕ) (u : Row) (rows : List Row)
    → count nb u ≤ max_pages
    → bisect_right (curve nb u rows) max_pages ≡ suc (absorb nb max_pages u rows)
unfolding bisect_right curve absorb
bisect_right-curve nb m u [] h = rw (le→leb _ _ h)
bisect_right-curve nb m u (r ∷ rows) h = elim (Bool-cases (leb (count nb (union u r)) m)) [
  | inl t ↦ rw (le→leb _ _ h, t) (ap suc (bisect_right-curve nb m (union u r) rows (leb→le _ _ t)))
  | inr g ↦ rw (le→leb _ _ h, g) (ap suc (stopped rows g))
]
  where
    stopped :
        (rows : List Row)
        → leb (count nb (union u r)) m ≡ false
        → bisect_right (curve nb (union u r) rows) m ≡ 0
    stopped [] g = rw g
    stopped (r' ∷ rows') g = rw g

first_row_bounds :
    (nrows : ℕ) (rows : List Row) (a p : ℕ)
    → (min a nrows ≤ first_row_at_or_after nrows rows a p)
      × (first_row_at_or_after nrows rows a p ≤ nrows)
unfolding first_row_at_or_after
first_row_bounds nrows [] a p = (omega arith, omega arith)
first_row_bounds nrows (r ∷ rows) a p = ground (arith, first_row_bounds nrows rows (suc a) p)

-- `first` is below `b` where `u` has the page, and else is its first row among `rows`, from `b` on
abbrev Tracks : ℕ → (ℕ → ℕ) → Row → List Row → ℕ → Type 0
Tracks nrows first u rows b =
    (p : ℕ)
    → (u p ≡ true → first p < b) × (u p ≡ false → first p ≡ first_row_at_or_after nrows rows b p)

Tracks-union :
    (nrows : ℕ) (first : ℕ → ℕ) (u r : Row) (rows : List Row) (b : ℕ)
    → suc b ≤ nrows
    → Tracks nrows first u (r ∷ rows) b
    → Tracks nrows first (union u r) rows (suc b)
unfolding first_row_at_or_after
Tracks-union nrows first u r rows b h t p = (
  ground (arith, t p, first_row_bounds nrows rows (suc b) p),
  ground (arith, t p, first_row_bounds nrows rows (suc b) p),
)

below_iff :
    (nrows : ℕ) (first : ℕ → ℕ) (u : Row) (rows : List Row) (b p : ℕ)
    → b ≤ nrows
    → Tracks nrows first u rows b
    → ltb (first p) b ≡ u p
below_iff nrows first u rows b p h t = ground (arith, t p, first_row_bounds nrows rows b p)

searchsorted-curve :
    (nb nrows : ℕ) (first : ℕ → ℕ) (u : Row) (rows : List Row) (b : ℕ)
    → b + length rows ≡ nrows
    → Tracks nrows first u rows b
    → searchsorted nb first b (suc (length rows)) ≡ curve nb u rows
unfolding searchsorted curve
searchsorted-curve nb nrows first u [] b h t =
    rw (fun_ext (λ p. below_iff nrows first u [] b p (omega arith) t))
searchsorted-curve nb nrows first u (r ∷ rows) b h t = rw (
  fun_ext (λ p. below_iff nrows first u (r ∷ rows) b p (omega arith) t),
  searchsorted-curve nb nrows first (union u r) rows (suc b) (omega arith)
      (Tracks-union nrows first u r rows b (omega arith) t),
)

union_curve-curve :
    (nb : ℕ) (bitmap : List Row) (a : ℕ)
    → a ≤ length bitmap
    → union_curve nb bitmap a ≡ curve nb empty (drop a bitmap)
unfolding union_curve
union_curve-curve nb bitmap a h =
    let n = length bitmap in
    let rows = drop a bitmap in
    let left = length-drop a bitmap in
    let rounds : suc n - a ≡ suc (length rows) = omega arith in
    rw rounds (
      searchsorted-curve nb n (first_row_at_or_after n rows a) empty rows a (omega arith)
        (λ p. (λ e. absurd (false≢true e), λ _. refl)))

module _ (nb max_pages : ℕ) (bitmap : List Row) where
  -- the end of a fast range, by the number of rows that an empty range absorbs
  range_end_fast-empty :
      (start : ℕ)
      → start < length bitmap
      → range_end_fast nb max_pages bitmap start ≡ (
          let k = absorb nb max_pages empty (drop start bitmap) in
          some (start + (if k == 0 then 1 else k)))
  unfolding range_end_fast
  range_end_fast-empty start h =
      let rows = drop start bitmap in
      let none_fit : count nb empty ≤ max_pages = omega (arith, count-empty nb) in
      let cov = union_curve-curve nb bitmap start (omega arith) in
      let found = bisect_right-curve nb max_pages empty rows none_fit in
      let k_eq : bisect_right (union_curve nb bitmap start) max_pages - 1
          ≡ absorb nb max_pages empty rows =
        omega (arith, ap (λ c. bisect_right c max_pages) cov, found) in
      rw k_eq refl

  -- The end of a fast range is that of the legacy range.
  pub range_end_fast-absorb :
      (start : ℕ)
      → start < length bitmap
      → range_end_fast nb max_pages bitmap start
        ≡ some
            (suc start + absorb nb max_pages (get_or bitmap start empty) (drop (suc start) bitmap))
  range_end_fast-absorb start h =
      let r = get_or bitmap start empty in
      let rest = drop (suc start) bitmap in
      let d = drop-eq-get_or start bitmap h in
      elim (Bool-cases (leb (count nb r) max_pages)) [
        | inl t ↦
            range_end_fast-empty start h
            ∙ rw (d, absorb_fits nb max_pages empty r rest (leb→le _ _ t)) (ground arith)
        | inr g ↦
            let over : max_pages < count nb r = ground arith in
            range_end_fast-empty start h
            ∙ rw
                (
                  d,
                  absorb_stops nb max_pages empty r rest over,
                  absorb_over nb max_pages r rest over,
                )
                (ap some (omega arith))
      ]
