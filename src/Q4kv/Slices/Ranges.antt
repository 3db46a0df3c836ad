-- ===== src/Q4kv/Slices/Ranges.antt =====
-- The ranges of `_greedy_row_slices` and of `_greedy_row_slices_fast`.
use vllm_exl.Prelude.{
  ℕ, zero, suc, ◌+◌, ◌-◌, ◌≤◌, ◌<◌, ◌≡◌, refl, sym, ◌∙◌, List, [], ◌∷◌, arith, Bool-cases, inl, inr,
  ◌⊎◌, ltb, leb, leb→le, lt→ltb, ltb→lt, length, take, drop, get_or, some, Option, Option-cases,
  length-drop, All,
}
use vllm_exl.Q4kv.Slices.Defs.{
  Row, empty, union, any_rows, count, rows_between, range_end, range_end_fast, range_loop,
  greedy_row_slices, greedy_row_slices_fast,
}
use vllm_exl.Q4kv.Slices.Absorb.{absorb, absorb-le, absorb-fits_all, absorb-maximal, absorb_over}
use vllm_exl.Q4kv.Slices.Legacy.{drop-eq-get_or, range_end-absorb}
use vllm_exl.Q4kv.Slices.Curve.{range_end_fast-absorb}

-- the ranges follow one another from `a` to `b`, and none is empty
abbrev pub Tiles : ℕ → ℕ → List (ℕ × ℕ) → Type 0
Tiles a b [] = a ≡ b
Tiles a b ((s, e) ∷ ranges) = (s ≡ a) × (a < e) × Tiles e b ranges

module _ (n : ℕ) (end : ℕ → Option ℕ) where
  range_loop_end : (fuel start : ℕ) → n ≤ start → range_loop n end fuel start ≡ some []
  unfolding range_loop
  range_loop_end zero start h = ground arith
  range_loop_end (suc fuel) start h = ground arith

  range_loop_step :
      (fuel start stop : ℕ) (ranges : List (ℕ × ℕ))
      → start < n
      → end start ≡ some stop
      → range_loop n end fuel stop ≡ some ranges
      → range_loop n end (suc fuel) start ≡ some ((start, stop) ∷ ranges)
  unfolding range_loop
  range_loop_step fuel start stop ranges h e r = ground (arith, lt→ltb start n h)

module _ (nb max_pages : ℕ) (bitmap : List Row) where
  -- the pages that the rows from `s` to `e` select
  abbrev pub pages_between : ℕ → ℕ → ℕ
  pages_between s e = count nb (any_rows (rows_between bitmap s e))

  -- a range fits the cap or is a single row, and one row more would not fit
  pub record IsRange (r : ℕ × ℕ) : Type 0 where
    pub fits : (pages_between r.0 r.1 ≤ max_pages) ⊎ (r.1 ≡ suc r.0)
    pub maximal : (r.1 ≡ length bitmap) ⊎ (max_pages < pages_between r.0 (suc r.1))

  -- a range from `start` that absorbs as many rows as fit
  absorbed : ℕ → ℕ
  absorbed start =
      suc start + absorb nb max_pages (get_or bitmap start empty) (drop (suc start) bitmap)

  pages_from :
      (start k : ℕ)
      → start < length bitmap
      → any_rows (rows_between bitmap start (suc start + k))
        ≡ union (get_or bitmap start empty) (any_rows (take k (drop (suc start) bitmap)))
  unfolding any_rows
  pages_from start k h =
      let n : suc start + k - start ≡ suc k = omega arith in
      rw (n, drop-eq-get_or start bitmap h) refl

  absorbed_bounds :
      (start : ℕ)
      → start < length bitmap
      → (start < absorbed start) × (absorbed start ≤ length bitmap)
  unfolding absorbed
  absorbed_bounds start h =
      let least = absorb-le nb max_pages (get_or bitmap start empty) (drop (suc start) bitmap) in
      let left = length-drop (suc start) bitmap in (omega arith, omega arith)

  absorbed-IsRange : (start : ℕ) → start < length bitmap → IsRange (start, absorbed start)
  unfolding absorbed
  absorbed-IsRange start h =
      let u = get_or bitmap start empty in
      let rest = drop (suc start) bitmap in
      let k = absorb nb max_pages u rest in
      let left = length-drop (suc start) bitmap in
      record {
        fits = elim (Bool-cases (leb (count nb u) max_pages)) [
          | inl t ↦
              inl (rw (pages_from start k h) (absorb-fits_all nb max_pages u rest (leb→le _ _ t)))
          | inr g ↦
              let none_more = absorb_over nb max_pages u rest (ground arith) in inr (omega arith)
        ];
        maximal = elim (Bool-cases (ltb k (length rest))) [
          | inl t ↦
              let more : suc (suc start + k) ≡ suc start + suc k = omega arith in
              inr (
                rw (more, pages_from start (suc k) h)
                  (absorb-maximal nb max_pages u rest (ltb→lt _ _ t)))
          | inr g ↦
              let least = absorb-le nb max_pages u rest in
              let all_seen : length rest ≤ k = ground arith in inl (omega arith)
        ];
      }

  -- a partition of the rows from `start` on into ranges
  pub record IsPartition (start : ℕ) (ranges : List (ℕ × ℕ)) : Type 0 where
    pub tiles : Tiles start (length bitmap) ranges
    pub each : All IsRange ranges

  module _ (end : ℕ → Option ℕ)
      (ends : (s : ℕ) → s < length bitmap → end s ≡ some (absorbed s)) where
    range_loop-IsPartition :
        (fuel start : ℕ)
        → start ≤ length bitmap
        → length bitmap - start ≤ fuel
        → (ranges : List (ℕ × ℕ)) × (range_loop (length bitmap) end fuel start ≡ some ranges)
          × IsPartition start ranges
    range_loop-IsPartition zero start h f = (
      [],
      range_loop_end _ end zero start (omega arith),
      record { tiles = omega arith; each = tt },
    )
    range_loop-IsPartition (suc fuel) start h f = elim (Bool-cases (ltb start (length bitmap))) [
      | inr g ↦
          let over : length bitmap ≤ start = ground arith in
          (
            [],
            range_loop_end _ end (suc fuel) start over,
            record { tiles = omega arith; each = tt },
          )
      | inl t ↦
          let before = ltb→lt _ _ t in
          let (low, high) = absorbed_bounds start before in
          let (ranges, ran, part) =
            range_loop-IsPartition fuel (absorbed start) high (omega arith) in
          (
            (start, absorbed start) ∷ ranges,
            range_loop_step _ end fuel start (absorbed start) ranges before (ends start before) ran,
            record {
              tiles = (refl, low, part.tiles);
              each = (absorbed-IsRange start before, part.each);
            },
          )
    ]

  -- The legacy planner always ends, with a partition of all rows into ranges that fit the cap or
  -- are one row, each as long as it can be.
  pub greedy_row_slices-IsPartition :
      (ranges : List (ℕ × ℕ)) × (greedy_row_slices nb max_pages bitmap ≡ some ranges)
      × IsPartition 0 ranges
  unfolding greedy_row_slices
  greedy_row_slices-IsPartition =
      range_loop-IsPartition (range_end nb max_pages bitmap)
        (λ s h. unfold absorbed in range_end-absorb nb max_pages bitmap s h) (length bitmap) 0
        (omega arith) (omega arith)

-- two planners whose ranges end alike compute the same list
range_loop_cong :
    (n : ℕ) (f g : ℕ → Option ℕ)
    → ((s : ℕ) → s < n → f s ≡ g s)
    → (fuel start : ℕ) → range_loop n f fuel start ≡ range_loop n g fuel start
unfolding range_loop
range_loop_cong n f g h zero start = refl
range_loop_cong n f g h (suc fuel) start = elim (Bool-cases (ltb start n)) [
  | inr t ↦ ground arith
  | inl t ↦
      let e = h start (ltb→lt start n t) in
      elim (Option-cases (g start)) [
        | inl m ↦ ground arith
        | inr (stop, m) ↦ ground (arith, range_loop_cong n f g h fuel stop)
      ]
]

-- The fast planner computes the same ranges as the legacy planner, on every bitmap.
pub greedy_row_slices_fast-eq :
    (nb max_pages : ℕ) (bitmap : List Row)
    → greedy_row_slices_fast nb max_pages bitmap ≡ greedy_row_slices nb max_pages bitmap
unfolding greedy_row_slices greedy_row_slices_fast
greedy_row_slices_fast-eq nb max_pages bitmap =
    range_loop_cong (length bitmap) (range_end_fast nb max_pages bitmap)
      (range_end nb max_pages bitmap)
      (λ s h.
        range_end_fast-absorb nb max_pages bitmap s h
        ∙ sym (range_end-absorb nb max_pages bitmap s h))
      (length bitmap) 0
