-- ===== src/Nvme/Regions/Defs.antt =====
-- `aligned` and `class Regions` of experiments/dsv41_nvme/expert_store.py. Sizes and offsets are
-- naturals, so a test `<= 0` of the source is a test for 0.
use vllm_exl.Prelude.{
  ℕ, ◌+◌, ◌-◌, ◌*◌, ◌/◌, ◌%◌, Bool, true, false, ◌&&◌, ◌||◌, not, Option, none, some, List, [], ◌∷◌,
  ◌++◌, ltb, leb, ◌==◌, if◌then◌else◌, Result, ok, raise, value_error, key_error, raise_if, ◌>>◌,
}

-- `ALIGN`
abbrev pub align : ℕ
align = 4096

-- `aligned(n)` at the default alignment
unfoldable pub aligned : ℕ → ℕ
aligned n = (n + align - 1) / align * align

-- (offset, size)
abbrev pub Block : Type 0
Block = ℕ × ℕ

pub record Regions : Type 0 where
  pub free : List Block
  -- the dict `allocated`, from offset to size, in insertion order
  pub allocated : List Block

-- `Regions.__init__`
unfoldable pub init : ℕ → ℕ → Result Regions
init size base = do
  raise_if (size == 0 || not (size % align == 0) || not (base % align == 0)) value_error
  ok (record { free = (base, size) ∷ []; allocated = [] })

-- what `self.free[i:i+1] = ...` leaves of the block that was found
unfoldable pub cut : ℕ → Block → List Block → List Block
cut size (offset, len) rest = if ltb size len then (offset + size, len - size) ∷ rest else rest

-- a search that passed over `x`: what it found, with `x` still in the list
abbrev pub beside : Block → Option (ℕ × List Block) → Option (ℕ × List Block)
beside x none = none
beside x (some (n, rest)) = some (n, x ∷ rest)

-- the `for` of `allocate`: the first block that is long enough, and the free list without its head
unfoldable pub first_fit : ℕ → List Block → Option (ℕ × List Block)
first_fit size [] = none
first_fit size ((offset, len) ∷ rest) =
    if leb size len
    then some (offset, cut size (offset, len) rest)
    else beside (offset, len) (first_fit size rest)

-- `d[offset] = size`
unfoldable pub insert : ℕ → ℕ → List Block → List Block
insert offset size [] = (offset, size) ∷ []
insert offset size ((o, s) ∷ d) =
    if offset == o then (offset, size) ∷ d else (o, s) ∷ insert offset size d

-- `d.pop(offset)`: the size, and the dict without the key
unfoldable pub pop : ℕ → List Block → Option (ℕ × List Block)
pop offset [] = none
pop offset ((o, s) ∷ d) = if offset == o then some (s, d) else beside (o, s) (pop offset d)

-- the state after the search of `allocate`, and the offset that it returns
unfoldable pub granted : ℕ → Regions → Option (ℕ × List Block) → Option ℕ × Regions
granted size r none = (none, r)
granted size r (some (offset, free')) =
    (some offset, record { free = free'; allocated = insert offset size r.allocated })

-- `Regions.allocate`: `none` where no free block is long enough
unfoldable pub allocate : ℕ → Regions → Result (Option ℕ × Regions)
allocate nbytes r = do
  raise_if (nbytes == 0) value_error
  ok (granted (aligned nbytes) r (first_fit (aligned nbytes) r.free))

-- Python's order on pairs
unfoldable pub pair_leb : Block → Block → Bool
pair_leb (a, b) (c, d) = ltb a c || a == c && leb b d

unfoldable pub insert_sorted : Block → List Block → List Block
insert_sorted x [] = x ∷ []
insert_sorted x (y ∷ ys) = if pair_leb x y then x ∷ y ∷ ys else y ∷ insert_sorted x ys

-- `sorted`
unfoldable pub sort : List Block → List Block
sort [] = []
sort (x ∷ xs) = insert_sorted x (sort xs)

-- the merging loop of `release`, with the last block of `merged` apart
unfoldable pub coalesce_from : Block → List Block → List Block
coalesce_from last [] = last ∷ []
coalesce_from (a, b) ((c, d) ∷ rest) = elim (a + b == c) [
  | true ↦ coalesce_from (a, b + d) rest
  | false ↦ (a, b) ∷ coalesce_from (c, d) rest
]

unfoldable pub coalesce : List Block → List Block
coalesce [] = []
coalesce (x ∷ xs) = coalesce_from x xs

-- the state after the `pop` of `release`
unfoldable pub returned : ℕ → Regions → Option (ℕ × List Block) → Result Regions
returned offset r none = raise key_error
returned offset r (some (size, rest)) =
    ok (record { free = coalesce (sort (r.free ++ (offset, size) ∷ [])); allocated = rest })

-- `Regions.release`
unfoldable pub release : ℕ → Regions → Result Regions
release offset r = returned offset r (pop offset r.allocated)
