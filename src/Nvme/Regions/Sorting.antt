-- ===== src/Nvme/Regions/Sorting.antt =====
-- Sorting and coalescing lists of blocks that do not overlap.
use vllm_exl.Prelude.{
  ℕ, ◌+◌, ◌≤◌, ◌<◌, ◌≡◌, List, [], ◌∷◌, arith, ◌==◌, Bool-cases, inl, inr, All, ◌⊎◌,
}
use mathlib.Core.Path.{subst}
use vllm_exl.Nvme.Regions.Defs.{Block, insert_sorted, sort, pair_leb, coalesce_from, coalesce}
use vllm_exl.Nvme.Regions.Cover.{hit, cover, hit_inside}
use vllm_exl.Nvme.Regions.Gapped.{After, Gapped}

-- the first block starts at `n` or later
abbrev pub From : ℕ → List Block → Type 0
From n [] = Unit
From n ((o, s) ∷ xs) = n ≤ o

abbrev pub IsSorted : List Block → Type 0
IsSorted [] = Unit
IsSorted ((o, s) ∷ xs) = From o xs × IsSorted xs

-- in ascending order, none empty, none overlapping
abbrev pub Apart : List Block → Type 0
Apart [] = Unit
Apart ((o, s) ∷ xs) = (0 < s) × From (o + s) xs × Apart xs

abbrev pub Positive : Block → Type 0
Positive b = 0 < b.1

From-insert_sorted :
    (n : ℕ) (x : Block) (xs : List Block) → n ≤ x.0 → From n xs → From n (insert_sorted x xs)
unfolding insert_sorted
From-insert_sorted n x [] h k = h
From-insert_sorted n x (y ∷ ys) h k = ground arith

insert_sorted-IsSorted : (x : Block) (xs : List Block) → IsSorted xs → IsSorted (insert_sorted x xs)
unfolding insert_sorted pair_leb
insert_sorted-IsSorted x [] h = (tt, tt)
insert_sorted-IsSorted x (y ∷ ys) h = elim (Bool-cases (pair_leb x y)) [
  | inl t ↦ rw (t, IsSorted) (ground arith, h)
  | inr f ↦
      rw (f, IsSorted)
        (From-insert_sorted y.0 x ys (ground arith) h.0, insert_sorted-IsSorted x ys h.1)
]

sort-IsSorted : (xs : List Block) → IsSorted (sort xs)
unfolding sort
sort-IsSorted [] = tt
sort-IsSorted (x ∷ xs) = insert_sorted-IsSorted x (sort xs) (sort-IsSorted xs)

module _ {ℓ} (P : Block → Type ℓ) where
  All-insert_sorted : (x : Block) (xs : List Block) → P x → All P xs → All P (insert_sorted x xs)
  unfolding insert_sorted
  All-insert_sorted x [] p h = (p, h)
  All-insert_sorted x (y ∷ ys) p h = elim (Bool-cases (pair_leb x y)) [
    | inl t ↦ rw t (p, h)
    | inr f ↦ rw f (h.0, All-insert_sorted x ys p h.1)
  ]

  pub All-sort : (xs : List Block) → All P xs → All P (sort xs)
  unfolding sort
  All-sort [] h = h
  All-sort (x ∷ xs) h = All-insert_sorted x (sort xs) h.0 (All-sort xs h.1)

reaches_or_holds : (a o s : ℕ) → o ≤ a → (o + s ≤ a) ⊎ (hit a o s ≡ 1)
unfolding hit
reaches_or_holds a o s h = ground arith

-- Sorted blocks, none empty, that cover no address twice, are apart.
Apart-of_cover :
    (xs : List Block) → IsSorted xs → All Positive xs → ((a : ℕ) → cover a xs ≤ 1) → Apart xs
Apart-of_cover [] h p c = tt
Apart-of_cover ((o, s) ∷ []) h p c = (p.0, tt, tt)
Apart-of_cover ((o, s) ∷ (q, t) ∷ xs) h p c = (
  p.0,
  omega (arith, c q, hit_inside q q t (omega arith) (omega arith), reaches_or_holds q o s h.0),
  Apart-of_cover ((q, t) ∷ xs) h.1 p.1 (λ a. omega (arith, c a)),
)

After-coalesce_from : (n o s : ℕ) (xs : List Block) → n < o → After n (coalesce_from (o, s) xs)
unfolding coalesce_from
After-coalesce_from n o s [] h = h
After-coalesce_from n o s ((c, d) ∷ xs) h = elim (Bool-cases (o + s == c)) [
  | inl t ↦ rw (t, After) (After-coalesce_from n o (s + d) xs h)
  | inr f ↦ rw (f, After) h
]

coalesce_from-Gapped :
    (o s : ℕ) (xs : List Block) → Apart ((o, s) ∷ xs) → Gapped (coalesce_from (o, s) xs)
unfolding coalesce_from
coalesce_from-Gapped o s [] h = h
coalesce_from-Gapped o s ((c, d) ∷ xs) h = elim (Bool-cases (o + s == c)) [
  | inl t ↦
      let e : c + d ≡ o + (s + d) = ground arith in
      rw (t, Gapped)
        (coalesce_from-Gapped o (s + d) xs (omega arith, subst (λ n. From n xs) e h.2.1, h.2.2))
  | inr f ↦
      rw (f, Gapped)
        (h.0, After-coalesce_from (o + s) c d xs (ground arith), coalesce_from-Gapped c d xs h.2)
]

coalesce-Gapped : (xs : List Block) → Apart xs → Gapped (coalesce xs)
unfolding coalesce
coalesce-Gapped [] h = tt
coalesce-Gapped ((o, s) ∷ xs) h = coalesce_from-Gapped o s xs h

-- What `release` makes of any blocks, none empty, that cover no address twice.
pub coalesce-sort-Gapped :
    (xs : List Block)
    → All Positive xs
    → ((a : ℕ) → cover a (sort xs) ≤ 1)
    → Gapped (coalesce (sort xs))
coalesce-sort-Gapped xs p c =
    coalesce-Gapped (sort xs)
      (Apart-of_cover (sort xs) (sort-IsSorted xs) (All-sort Positive xs p) c)

pub Positive-of_Gapped : (xs : List Block) → Gapped xs → All Positive xs
Positive-of_Gapped [] g = tt
Positive-of_Gapped ((o, s) ∷ xs) g = (g.0, Positive-of_Gapped xs g.2)
