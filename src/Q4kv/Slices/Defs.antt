-- ===== src/Q4kv/Slices/Defs.antt =====
-- `_greedy_row_slices` and `_greedy_row_slices_fast` of src/vllm_exl3/minimax_q4kv_reference.py,
-- with `break_row`, `_first_row_at_or_after` and `_union_curve`. A boolean tensor [rows, nb] is a
-- list of rows and `nb`; a row is the test whether it selects a page. The two `while start < nrows`
-- loops take fuel, and `none` means that it ran out.
use vllm_exl.Prelude.{
  ℕ, zero, suc, ◌+◌, ◌-◌, ◌*◌, min, ◌==◌, Bool, true, false, ◌||◌, Option, none, some, List, [],
  ◌∷◌, ltb, leb, if◌then◌else◌, length, get_or, take, drop,
}

-- which pages a row of the bitmap selects
abbrev pub Row : Type 0
Row = ℕ → Bool

abbrev pub empty : Row
empty p = false

-- `u | v`
abbrev pub union : Row → Row → Row
union u v p = u p || v p

-- `bitmap[lo:hi].any(0)` on the rows `lo` to `hi`
unfoldable pub any_rows : List Row → Row
any_rows [] = empty
any_rows (r ∷ rows) = union r (any_rows rows)

-- `int(u.sum())` over `nb` pages
unfoldable pub count : ℕ → Row → ℕ
count zero u = 0
count (suc p) u = count p u + (if u p then 1 else 0)

-- `bitmap[lo:hi]`
abbrev pub rows_between : List Row → ℕ → ℕ → List Row
rows_between bitmap lo hi = take (hi - lo) (drop lo bitmap)

-- `while start < nrows`: the ranges that it appends, from the end of each
unfoldable pub range_loop : ℕ → (ℕ → Option ℕ) → ℕ → ℕ → Option (List (ℕ × ℕ))
range_loop nrows end zero start = if ltb start nrows then none else some []
range_loop nrows end (suc fuel) start = elim (ltb start nrows) [
  | false ↦ some []
  | true ↦ elim (end start) [
    | none ↦ none
    | some stop ↦ elim (range_loop nrows end fuel stop) [
      | none ↦ none
      | some ranges ↦ some ((start, stop) ∷ ranges)
    ]
  ]
]

module _ (nb max_pages : ℕ) (bitmap : List Row) where
  -- `break_row`, with the rounds left in place of `hi`
  unfoldable pub break_row : Row → ℕ → ℕ → ℕ
  break_row u i zero = i
  break_row u i (suc rounds) =
      let u' = union u (get_or bitmap i empty) in
      let rest = break_row u' (suc i) rounds in if ltb max_pages (count nb u') then i else rest

  -- the `while e < nrows` loop of `_greedy_row_slices`: the end of the range that it appends
  unfoldable pub chunk_loop : ℕ → Row → ℕ → ℕ → Option ℕ
  chunk_loop zero u e step = none
  chunk_loop (suc fuel) u e step =
      let nrows = length bitmap in
      let nxt = min (e + step) nrows in
      let probe = union u (any_rows (rows_between bitmap e nxt)) in
      let next = chunk_loop fuel probe nxt (min (step * 2) 512) in
      if ltb e nrows
      then (if leb (count nb probe) max_pages then next else some (break_row u e (nxt - e)))
      else some nrows

  -- the body of `while start < nrows`: the end of the range that starts at `start`
  unfoldable pub range_end : ℕ → Option ℕ
  range_end start =
      let u = get_or bitmap start empty in
      if ltb max_pages (count nb u)
      then some (suc start)
      else chunk_loop (suc (length bitmap)) u (suc start) 8

  -- `_greedy_row_slices`
  unfoldable pub greedy_row_slices : Option (List (ℕ × ℕ))
  greedy_row_slices = range_loop (length bitmap) range_end (length bitmap) 0

-- `_first_row_at_or_after` at page `p`, on the rows from `a` on
unfoldable pub first_row_at_or_after : ℕ → List Row → ℕ → ℕ → ℕ
first_row_at_or_after nrows [] a p = nrows
first_row_at_or_after nrows (r ∷ rows) a p =
    min (if r p then a else nrows) (first_row_at_or_after nrows rows (suc a) p)

-- `searchsorted(ordered, b)` for each `b` from the first on: how many pages start before `b`
unfoldable pub searchsorted : ℕ → (ℕ → ℕ) → ℕ → ℕ → List ℕ
searchsorted nb first b zero = []
searchsorted nb first b (suc rounds) =
    count nb (λ p. ltb (first p) b) ∷ searchsorted nb first (suc b) rounds

-- `bisect_right` on a list in ascending order
unfoldable pub bisect_right : List ℕ → ℕ → ℕ
bisect_right [] x = 0
bisect_right (c ∷ cov) x = if leb c x then suc (bisect_right cov x) else 0

-- `_union_curve`
unfoldable pub union_curve : ℕ → List Row → ℕ → List ℕ
union_curve nb bitmap a =
    searchsorted nb (first_row_at_or_after (length bitmap) (drop a bitmap) a) a
      (suc (length bitmap) - a)

-- the body of the fast loop; `k` stops at 0 where the source floors it at 1
unfoldable pub range_end_fast : ℕ → ℕ → List Row → ℕ → Option ℕ
range_end_fast nb max_pages bitmap start =
    let k = bisect_right (union_curve nb bitmap start) max_pages - 1 in
    some (start + (if k == 0 then 1 else k))

-- `_greedy_row_slices_fast`
unfoldable pub greedy_row_slices_fast : ℕ → ℕ → List Row → Option (List (ℕ × ℕ))
greedy_row_slices_fast nb max_pages bitmap =
    range_loop (length bitmap) (range_end_fast nb max_pages bitmap) (length bitmap) 0
