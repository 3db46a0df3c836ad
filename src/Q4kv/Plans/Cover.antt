-- ===== src/Q4kv/Plans/Cover.antt =====
-- How the slices of a plan divide the queries.
use vllm_exl.Prelude.{
  ℕ, zero, suc, ◌+◌, ◌-◌, ◌*◌, ◌≤◌, ◌<◌, ◌≡◌, refl, ap, sym, List, [], ◌∷◌, ◌++◌, map, arith, true,
  false, Bool-cases, inl, inr, ◌⊎◌, ◌&&◌, ltb, ◌==◌, length, get_or, take, drop, some, Option, All,
  All-append, length-append, length-drop, ℤ, ok,
}
use vllm_exl.Q4kv.Slices.Defs.{Row, any_rows, count, rows_between, greedy_row_slices}
use vllm_exl.Q4kv.Slices.Ranges.{Tiles, IsRange, greedy_row_slices-IsPartition}
use vllm_exl.Q4kv.Plans.Defs.{
  Chunk, selected_page_bitmap, nonzero, row_union, Slice, pages_of, query_slice, range_slices,
  all_slices, non_decreasing, covers_queries, indexable, plan_with, plan_prefill_slices,
  req_bitmap_from, phys, req_of_q, repeat,
}

length-nonzero : (nb : ℕ) (u : Row) → length (nonzero nb u) ≡ count nb u
unfolding nonzero count
length-nonzero zero u = refl
length-nonzero (suc p) u = elim (Bool-cases (u p)) [
  | inl t ↦ rw t (omega (arith, length-append (nonzero p u) (p ∷ []), length-nonzero p u))
  | inr f ↦ rw f (omega (arith, length-append (nonzero p u) [], length-nonzero p u))
]

-- the query ranges follow one another from `a` to `b`
abbrev pub Follows : ℕ → ℕ → List Slice → Type 0
Follows a b [] = a ≡ b
Follows a b (s ∷ ss) = (s.q.0 ≡ a) × (a ≤ s.q.1) × Follows s.q.1 b ss

-- within the cap, or one query alone
abbrev pub Capped : ℕ → Slice → Type 0
Capped max_pages s = (pages_of s ≤ max_pages) ⊎ (s.q.1 ≡ suc s.q.0)

Follows-append :
    (a b c : ℕ) (ss ts : List Slice) → Follows a b ss → Follows b c ts → Follows a c (ss ++ ts)
Follows-append a b c [] ts h k = rw h k
Follows-append a b c (s ∷ ss) ts (h0, h1, h2) k = (h0, h1, Follows-append s.q.1 b c ss ts h2 k)

-- the slices of the queries of one request
query_slices_lem :
    (nb max_pages r lo : ℕ) (q_bitmap : List Row) (a : ℕ) (ranges : List (ℕ × ℕ))
    → Tiles a (length q_bitmap) ranges
    → All (IsRange nb max_pages q_bitmap) ranges
    → let ss = map (query_slice nb r lo q_bitmap) ranges in
      Follows (lo + a) (lo + length q_bitmap) ss × All (Capped max_pages) ss
query_slices_lem nb max_pages r lo q_bitmap a [] h k = (omega arith, tt)
query_slices_lem nb max_pages r lo q_bitmap a ((qs, qe) ∷ ranges) (h0, h1, h2) k =
    let rest = query_slices_lem nb max_pages r lo q_bitmap qe ranges h2 k.1 in
    let n = length-nonzero nb (any_rows (rows_between q_bitmap qs qe)) in
    let fits = k.0.fits in ((omega arith, omega arith, rest.0), (omega arith, rest.1))

length-take : {A : Type 0} (n : ℕ) (xs : List A) → n ≤ length xs → length (take n xs) ≡ n
length-take zero xs h = refl
length-take (suc n) [] h = absurd (omega arith)
length-take (suc n) (x ∷ xs) h = ap suc (length-take n xs (omega arith))

step :
    (a b : ℕ) (cu : List ℕ)
    → non_decreasing (a ∷ b ∷ cu) ≡ true
    → (a ≤ b) × (non_decreasing (b ∷ cu) ≡ true)
unfolding non_decreasing
step a b cu h = ground arith

-- `cu` does not decrease from one position to a later one
non_decreasing-le :
    (cu : List ℕ) (i j : ℕ)
    → non_decreasing cu ≡ true
    → i ≤ j
    → j < length cu
    → get_or cu i 0 ≤ get_or cu j 0
non_decreasing-le [] i j h k l = absurd (omega arith)
non_decreasing-le (a ∷ []) i j h k l =
    let e : i ≡ 0 = omega arith in let f : j ≡ 0 = omega arith in rw (e, f) (omega arith)
non_decreasing-le (a ∷ b ∷ cu) zero zero h k l = omega arith
non_decreasing-le (a ∷ b ∷ cu) zero (suc j) h k l =
    let (le, rest) = step a b cu h in
    omega (arith, non_decreasing-le (b ∷ cu) zero j rest (omega arith) (omega arith))
non_decreasing-le (a ∷ b ∷ cu) (suc i) zero h k l = absurd (omega arith)
non_decreasing-le (a ∷ b ∷ cu) (suc i) (suc j) h k l =
    non_decreasing-le (b ∷ cu) i j (step a b cu h).1 (omega arith) (omega arith)

length-repeat : (n m : ℕ) → length (repeat n m) ≡ n
length-repeat zero m = refl
length-repeat (suc n) m = ap suc (length-repeat n m)

-- a request for each query
length-req_of_q :
    (m a : ℕ) (cu : List ℕ)
    → non_decreasing (a ∷ cu) ≡ true
    → length (req_of_q m (a ∷ cu)) + a ≡ get_or (a ∷ cu) (length cu) 0
unfolding req_of_q
length-req_of_q m a [] h = omega arith
length-req_of_q m a (b ∷ cu) h =
    let (le, rest) = step a b cu h in
    omega (
      arith,
      length-append (repeat (b - a) m) (req_of_q (suc m) (b ∷ cu)),
      length-repeat (b - a) m,
      length-req_of_q (suc m) b cu rest,
    )

length-phys :
    (nb : ℕ) (table : List (List ℤ)) (reqs : List ℕ) (topk : List (List ℤ))
    → length reqs ≡ length topk
    → length (phys nb table reqs topk) ≡ length topk
unfolding phys
length-phys nb table [] [] h = refl
length-phys nb table [] (b ∷ topk) h = absurd (omega arith)
length-phys nb table (m ∷ reqs) [] h = absurd (omega arith)
length-phys nb table (m ∷ reqs) (b ∷ topk) h = ap suc (length-phys nb table reqs topk (omega arith))

length-req_bitmap_from :
    (m n : ℕ) (reqs : List ℕ) (rows : List Row) → length (req_bitmap_from m n reqs rows) ≡ n
length-req_bitmap_from m zero reqs rows = refl
length-req_bitmap_from m (suc n) reqs rows = ap suc (length-req_bitmap_from (suc m) n reqs rows)

moved : {a b a' b' : ℕ} (ss : List Slice) → a ≡ a' → b ≡ b' → Follows a b ss → Follows a' b' ss
moved ss p q h = rw (sym p, sym q) h

Tiles-le : (a b : ℕ) (ranges : List (ℕ × ℕ)) → Tiles a b ranges → a ≤ b
Tiles-le a b [] h = omega arith
Tiles-le a b ((s, e) ∷ ranges) (h0, h1, h2) = omega (arith, Tiles-le e b ranges h2)

-- what a list of slices from one planner's range to the next one's holds
abbrev pub Shares : ℕ → ℕ → ℕ → Option (List Slice) → Type 0
Shares max_pages a b o =
    (ss : List Slice) × (o ≡ some ss) × Follows a b ss × All (Capped max_pages) ss

module _ (nb max_pages : ℕ) (cu : List ℕ) (req_bitmap rows : List Row)
    (ordered : non_decreasing cu ≡ true) (requests : length cu ≡ suc (length req_bitmap))
    (queries : get_or cu (length req_bitmap) 0 ≡ length rows) where
  at-le : (i j : ℕ) → i ≤ j → j ≤ length req_bitmap → get_or cu i 0 ≤ get_or cu j 0
  at-le i j h k = non_decreasing-le cu i j ordered h (omega arith)

  -- one range of requests
  range_slices-Shares :
      (rs re : ℕ)
      → rs < re
      → re ≤ length req_bitmap
      → IsRange nb max_pages req_bitmap (rs, re)
      → Shares max_pages
          (get_or cu rs 0)
          (get_or cu re 0)
          (range_slices greedy_row_slices nb max_pages cu req_bitmap rows (rs, re))
  unfolding range_slices
  range_slices-Shares rs re h k is =
      let n = length-nonzero nb (any_rows (rows_between req_bitmap rs re)) in
      elim (Bool-cases (re - rs == 1 && ltb max_pages (length (row_union nb req_bitmap rs re)))) [
        | inr f ↦
            let fits = is.fits in
            let small : length (row_union nb req_bitmap rs re) ≤ max_pages = ground arith in
            rw f (_, refl, (refl, at-le rs re (omega arith) k, refl), (inl small, tt))
        | inl t ↦
            let next : re ≡ suc rs = ground arith in
            let lo = get_or cu rs 0 in
            let hi = get_or cu (suc rs) 0 in
            let q_bitmap = rows_between rows lo hi in
            let low : lo ≤ hi = at-le rs (suc rs) (omega arith) (omega arith) in
            let high : hi ≤ get_or cu (length req_bitmap) 0 =
              at-le (suc rs) (length req_bitmap) (omega arith) (omega arith) in
            let dropped = length-drop lo rows in
            let len = length-take (hi - lo) (drop lo rows) (omega arith) in
            let (ranges, ran, part) = greedy_row_slices-IsPartition nb max_pages q_bitmap in
            let (follows, capped) =
              query_slices_lem nb max_pages rs lo q_bitmap 0 ranges part.tiles part.each in
            let first : lo + 0 ≡ lo = omega arith in
            let last : lo + length q_bitmap ≡ get_or cu re 0 = rw next (omega arith) in
            rw (t, ran) (_, refl, moved _ first last follows, capped)
      ]

  -- all ranges of requests from request `a` on
  all_slices-Shares :
      (a : ℕ) (ranges : List (ℕ × ℕ))
      → Tiles a (length req_bitmap) ranges
      → All (IsRange nb max_pages req_bitmap) ranges
      → Shares max_pages
          (get_or cu a 0)
          (length rows)
          (all_slices greedy_row_slices nb max_pages cu req_bitmap rows ranges)
  unfolding all_slices
  all_slices-Shares a [] h k = ([], refl, rw h queries, tt)
  all_slices-Shares a ((rs, re) ∷ ranges) (h0, h1, h2) k =
      let inside = Tiles-le re (length req_bitmap) ranges h2 in
      let (ss, made, follows, capped) = range_slices-Shares rs re (omega arith) inside k.0 in
      let (ts, made', follows', capped') = all_slices-Shares re ranges h2 k.1 in
      let from_a : get_or cu rs 0 ≡ get_or cu a 0 = ap (λ m. get_or cu m 0) h0 in
      rw (made, made')
        (
          ss ++ ts,
          refl,
          Follows-append _ _ _ ss ts (moved ss from_a refl follows) follows',
          All-append (Capped max_pages) ss ts capped capped',
        )

-- The plan of a chunk that passes the tests always exists, and its slices follow one another over
-- all queries, from 0 to their number; the pages of a slice are within the cap, but for a slice of
-- one query.
pub plan_prefill_slices-Follows :
    (c : Chunk)
    → (c.slots == 2 * c.num_kv_heads && c.tokens == 128 && c.width == 72) ≡ true
    → 0 < c.max_pages
    → indexable c ≡ true
    → (covers_queries c.cu_seqlens_q (length c.topk_idx) && non_decreasing c.cu_seqlens_q) ≡ true
    → (ss : List Slice) × (plan_prefill_slices c ≡ ok (some ss))
      × Follows 0 (length c.topk_idx) ss
      × All (Capped c.max_pages) ss
unfolding plan_prefill_slices plan_with selected_page_bitmap
plan_prefill_slices-Follows c shape cap fits good =
    let cu = c.cu_seqlens_q in
    let reqs = req_of_q 0 cu in
    let rows = phys c.nb c.block_table reqs c.topk_idx in
    let bitmap = req_bitmap_from 0 (length cu - 1) reqs rows in
    let ordered : non_decreasing cu ≡ true = ground arith in
    let first : get_or cu 0 0 ≡ 0 = ground arith in
    let last : get_or cu (length cu - 1) 0 ≡ length c.topk_idx = ground arith in
    let some_cu : 0 < length cu = ground arith in
    let size = length-req_bitmap_from 0 (length cu - 1) reqs rows in
    let requests : length cu ≡ suc (length bitmap) = omega arith in
    let of_q = requests_of cu ordered some_cu in
    let all_rows = length-phys c.nb c.block_table reqs c.topk_idx (omega arith) in
    let queries : get_or cu (length bitmap) 0 ≡ length rows = rw size (omega arith) in
    let (ranges, ran, part) = greedy_row_slices-IsPartition c.nb c.max_pages bitmap in
    let (ss, made, follows, capped) =
      all_slices-Shares c.nb c.max_pages cu bitmap rows ordered requests queries 0 ranges part.tiles
        part.each in
    let floor : ltb c.max_pages 1 ≡ false = ground arith in
    rw (shape, floor, fits, good, ran, made) (ss, refl, moved ss first all_rows follows, capped)
  where
    requests_of :
        (cu : List ℕ)
        → non_decreasing cu ≡ true
        → 0 < length cu
        → length (req_of_q 0 cu) + get_or cu 0 0 ≡ get_or cu (length cu - 1) 0
    requests_of [] h k = absurd (omega arith)
    requests_of (a ∷ cu) h k =
        let e : suc (length cu) - 1 ≡ length cu = omega arith in rw e (length-req_of_q 0 a cu h)
