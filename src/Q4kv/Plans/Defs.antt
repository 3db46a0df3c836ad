-- ===== src/Q4kv/Plans/Defs.antt =====
-- `_selected_page_bitmap`, `plan_prefill_slices` and `prefill_slice_metadata` of src/vllm_exl3/minimax_q4kv_reference.py.
-- The selections of a query are the logical blocks of all its heads, one after the other. Where
-- `cu_seqlens_q` does not fit the queries, torch may refuse it before the test that is modelled.
use vllm_exl.Prelude.{
  ℕ, zero, suc, ◌+◌, ◌-◌, ◌*◌, min, max, ◌==◌, Bool, true, false, ◌&&◌, ◌||◌, not, Option, none,
  some, List, [], ◌∷◌, ◌++◌, map, ltb, leb, if◌then◌else◌, length, get_or, get_elem?, take, sum, ℤ,
  pos, negsuc, Result, ok, value_error, index_error, raise_if, ◌>>◌,
}
use vllm_exl.Q4kv.Slices.Defs.{Row, any_rows, rows_between, greedy_row_slices}

-- the arguments, with the shape of the pool
pub record Chunk : Type 0 where
  pub nb : ℕ
  pub slots : ℕ
  pub tokens : ℕ
  pub width : ℕ
  -- a row of `max_blocks` blocks for each request
  pub max_blocks : ℕ
  pub block_table : List (List ℤ)
  -- the logical blocks of each query
  pub topk_idx : List (List ℤ)
  pub cu_seqlens_q : List ℕ
  pub num_kv_heads : ℕ
  pub max_pages : ℕ

-- `phys` of one selection, which is page `p`
abbrev pub is_page : ℕ → ℕ → Option ℤ → Bool
is_page nb p none = false
is_page nb p (some (pos x)) = x == p && ltb x nb
is_page nb p (some (negsuc x)) = false

abbrev pub phys_is : ℕ → List ℤ → ℕ → ℤ → Bool
phys_is nb table p (pos b) = is_page nb p (get_elem? table b)
phys_is nb table p (negsuc b) = false

-- the pages that the selections of one query reach through a row of the block table
unfoldable pub query_row : ℕ → List ℤ → List ℤ → Row
query_row nb table [] p = false
query_row nb table (b ∷ blks) p = phys_is nb table p b || query_row nb table blks p

abbrev pub repeat : ℕ → ℕ → List ℕ
repeat zero m = []
repeat (suc n) m = m ∷ repeat n m

-- `req_of_q`, from request `m` on
unfoldable pub req_of_q : ℕ → List ℕ → List ℕ
req_of_q m [] = []
req_of_q m (a ∷ []) = []
req_of_q m (a ∷ b ∷ cu) = repeat (b - a) m ++ req_of_q (suc m) (b ∷ cu)

-- `phys` as a row for each query
unfoldable pub phys : ℕ → List (List ℤ) → List ℕ → List (List ℤ) → List Row
unfolding query_row
phys nb table [] topk = []
phys nb table (m ∷ reqs) [] = []
phys nb table (m ∷ reqs) (blks ∷ topk) =
    query_row nb (get_or table m []) blks ∷ phys nb table reqs topk

-- `req_bitmap` at request `m`: the pages of its queries
unfoldable pub req_row : ℕ → List ℕ → List Row → Row
req_row m [] rows p = false
req_row m (r ∷ reqs) [] p = false
req_row m (r ∷ reqs) (row ∷ rows) p = r == m && row p || req_row m reqs rows p

abbrev pub req_bitmap_from : ℕ → ℕ → List ℕ → List Row → List Row
req_bitmap_from m zero reqs rows = []
req_bitmap_from m (suc n) reqs rows = req_row m reqs rows ∷ req_bitmap_from (suc m) n reqs rows

-- `_selected_page_bitmap`: `req_bitmap` and `phys`
unfoldable pub selected_page_bitmap : Chunk → List Row × List Row
unfolding req_of_q phys req_row
selected_page_bitmap c =
    let reqs = req_of_q 0 c.cu_seqlens_q in
    let rows = phys c.nb c.block_table reqs c.topk_idx in
    (req_bitmap_from 0 (length c.cu_seqlens_q - 1) reqs rows, rows)

-- `nonzero`
unfoldable pub nonzero : ℕ → Row → List ℕ
nonzero zero u = []
nonzero (suc p) u = nonzero p u ++ (if u p then p ∷ [] else [])

-- `row_union`
abbrev pub row_union : ℕ → List Row → ℕ → ℕ → List ℕ
row_union nb bitmap lo hi = nonzero nb (any_rows (rows_between bitmap lo hi))

pub record Slice : Type 0 where
  pub reqs : List ℕ
  pub q : ℕ × ℕ
  pub pages : List ℕ

-- `slice["n"]`
abbrev pub pages_of : Slice → ℕ
pages_of s = length s.pages

-- `list(range(a, a + n))`
unfoldable pub range : ℕ → ℕ → List ℕ
range a zero = []
range a (suc n) = a ∷ range (suc a) n

abbrev pub Planner : Type 0
Planner = ℕ → ℕ → List Row → Option (List (ℕ × ℕ))

-- the slices of the query ranges of one request, whose queries start at `lo`
abbrev pub query_slice : ℕ → ℕ → ℕ → List Row → ℕ × ℕ → Slice
query_slice nb r lo q_bitmap (qs, qe) = record {
  reqs = r ∷ [];
  q = (lo + qs, lo + qe);
  pages = row_union nb q_bitmap qs qe;
}

abbrev pub query_slices : ℕ → ℕ → ℕ → List Row → Option (List (ℕ × ℕ)) → Option (List Slice)
query_slices nb r lo q_bitmap none = none
query_slices nb r lo q_bitmap (some ranges) = some (map (query_slice nb r lo q_bitmap) ranges)

module _ (planner : Planner) (nb max_pages : ℕ) (cu : List ℕ) (req_bitmap rows : List Row) where
  -- the body of the loop over the ranges of requests
  unfoldable pub range_slices : ℕ × ℕ → Option (List Slice)
  unfolding range
  range_slices (rs, re) =
      let pages = row_union nb req_bitmap rs re in
      let q_bitmap = rows_between rows (get_or cu rs 0) (get_or cu (suc rs) 0) in
      if re - rs == 1 && ltb max_pages (length pages)
      then query_slices nb rs (get_or cu rs 0) q_bitmap (planner nb max_pages q_bitmap)
      else some (
          record { reqs = range rs (re - rs); q = (get_or cu rs 0, get_or cu re 0); pages = pages }
          ∷ [])

  abbrev pub chained : Option (List Slice) → Option (List Slice) → Option (List Slice)
  chained (some ss) (some ts) = some (ss ++ ts)
  chained (some ss) none = none
  chained none ts = none

  unfoldable pub all_slices : List (ℕ × ℕ) → Option (List Slice)
  unfolding range_slices
  all_slices [] = some []
  all_slices (r ∷ ranges) = chained (range_slices r) (all_slices ranges)

  abbrev pub slices_of : Option (List (ℕ × ℕ)) → Option (List Slice)
  slices_of none = none
  slices_of (some ranges) = all_slices ranges

-- the selections that can index a row of the block table: only negative ones are clamped
unfoldable pub in_table : ℕ → List ℤ → Bool
in_table max_blocks [] = true
in_table max_blocks (pos b ∷ blks) = ltb b max_blocks && in_table max_blocks blks
in_table max_blocks (negsuc b ∷ blks) = in_table max_blocks blks

abbrev pub all_in_table : ℕ → List (List ℤ) → Bool
all_in_table max_blocks [] = true
all_in_table max_blocks (blks ∷ topk) = in_table max_blocks blks && all_in_table max_blocks topk

abbrev pub all_below : ℕ → List ℕ → Bool
all_below n [] = true
all_below n (m ∷ ms) = ltb m n && all_below n ms

-- the indexing of the block table raises no IndexError
unfoldable pub indexable : Chunk → Bool
unfolding in_table
indexable c =
    all_below (length c.block_table) (req_of_q 0 c.cu_seqlens_q)
    && all_in_table c.max_blocks c.topk_idx

-- no `b < a` in `zip(cu, cu[1:])`
unfoldable pub non_decreasing : List ℕ → Bool
non_decreasing [] = true
non_decreasing (a ∷ []) = true
non_decreasing (a ∷ b ∷ cu) = leb a b && non_decreasing (b ∷ cu)

-- `cu[0] == 0` and `cu[-1] == total_q`, of a list that has an element
abbrev pub covers_queries : List ℕ → ℕ → Bool
covers_queries cu total_q =
    ltb 0 (length cu) && get_or cu 0 0 == 0 && get_or cu (length cu - 1) 0 == total_q

-- the plan with a planner of ranges; `none` where the planner runs out of fuel
unfoldable pub plan_with : Planner → Chunk → Result (Option (List Slice))
unfolding selected_page_bitmap all_slices non_decreasing indexable
plan_with planner c = do
  raise_if (not (c.slots == 2 * c.num_kv_heads && c.tokens == 128 && c.width == 72)) value_error
  raise_if (ltb c.max_pages 1) value_error
  raise_if (not (indexable c)) index_error
  raise_if
      (not (covers_queries c.cu_seqlens_q (length c.topk_idx) && non_decreasing c.cu_seqlens_q))
      value_error
  ok (
      slices_of planner c.nb c.max_pages c.cu_seqlens_q (selected_page_bitmap c).0
        (selected_page_bitmap c).1 (planner c.nb c.max_pages (selected_page_bitmap c).0))

unfoldable pub plan_prefill_slices : Chunk → Result (Option (List Slice))
unfolding plan_with
plan_prefill_slices = plan_with greedy_row_slices

-- `prefill_slice_metadata`: the length of each member, the new `cu` and the new prefixes, and the
-- longest length; a length that would be negative is 0, which is refused too
abbrev pub member_length : List ℕ → ℕ → ℕ → ℕ → ℕ
member_length cu qs qe m = min (get_or cu (suc m) 0) qe - max (get_or cu m 0) qs

abbrev pub new_prefix : List ℕ → List ℕ → ℕ → ℕ → ℕ
new_prefix cu prefix qs m = get_or prefix m 0 + max (get_or cu m 0) qs - get_or cu m 0

unfoldable pub accumulate : ℕ → List ℕ → List ℕ
accumulate total [] = []
accumulate total (n ∷ ns) = (total + n) ∷ accumulate (total + n) ns

unfoldable pub all_positive : List ℕ → Bool
all_positive [] = true
all_positive (n ∷ ns) = ltb 0 n && all_positive ns

unfoldable pub maximum : List ℕ → ℕ
maximum [] = 0
maximum (n ∷ ns) = max n (maximum ns)

pub record Metadata : Type 0 where
  pub cu_new : List ℕ
  pub prefix_new : List ℕ
  pub max_query_len : ℕ

unfoldable pub prefill_slice_metadata : Slice → List ℕ → List ℕ → Result Metadata
unfolding accumulate all_positive maximum
prefill_slice_metadata s cu prefix =
    let lens = map (member_length cu s.q.0 s.q.1) s.reqs in
    let total = s.q.1 - s.q.0 in
    do
      raise_if (not (sum lens == total && all_positive lens)) value_error
      ok (record {
        cu_new = 0 ∷ take (length lens - 1) (accumulate 0 lens) ++ total ∷ [];
        prefix_new = map (new_prefix cu prefix s.q.0) s.reqs;
        max_query_len = maximum lens;
      })
