-- ===== src/Nvme/Regions/Cover.antt =====
-- How often an address is covered by the blocks of a list.
use vllm_exl.Prelude.{
  ℕ, ◌+◌, ◌-◌, ◌≤◌, ◌<◌, ◌≡◌, refl, ◌&&◌, some, List, [], ◌∷◌, ◌++◌, ltb, leb, if◌then◌else◌, arith,
  Bool-cases, Option-cases, inl, inr,
}
use vllm_exl.Nvme.Regions.Defs.{
  Block, cut, first_fit, pop, insert_sorted, sort, coalesce_from, coalesce,
}

-- 1 if the block at `offset` of `size` bytes holds the address `a`, else 0
unfoldable pub hit : ℕ → ℕ → ℕ → ℕ
hit a offset size = if leb offset a && ltb a (offset + size) then 1 else 0

abbrev pub cover : ℕ → List Block → ℕ
cover a [] = 0
cover a ((o, s) ∷ xs) = hit a o s + cover a xs

pub hit-split : (a o s t : ℕ) → hit a o (s + t) ≡ hit a o s + hit a (o + s) t
unfolding hit
hit-split a o s t = ground arith

pub hit_inside : (a o s : ℕ) → o ≤ a → a < o + s → hit a o s ≡ 1
unfolding hit
hit_inside a o s h k = ground arith

pub hit_below : (a o s : ℕ) → a < o → hit a o s ≡ 0
unfolding hit
hit_below a o s h = ground arith

pub hit_above : (a o s : ℕ) → o + s ≤ a → hit a o s ≡ 0
unfolding hit
hit_above a o s h = ground arith

pub hit_pos : (a o s : ℕ) → 0 < hit a o s → (o ≤ a) × (a < o + s)
unfolding hit
hit_pos a o s h = ground arith

pub hit_le_one : (a o s : ℕ) → hit a o s ≤ 1
unfolding hit
hit_le_one a o s = ground arith

pub cover-append : (a : ℕ) (xs ys : List Block) → cover a (xs ++ ys) ≡ cover a xs + cover a ys
cover-append a [] ys = omega arith
cover-append a ((o, s) ∷ xs) ys = omega (arith, cover-append a xs ys)

-- A cut takes exactly the block of `size` bytes.
cover-cut :
    (a size o l : ℕ) (rest : List Block)
    → size ≤ l
    → hit a o size + cover a (cut size (o, l) rest) ≡ hit a o l + cover a rest
unfolding cut
cover-cut a size o l rest h = elim (Bool-cases (ltb size l)) [
  | inl t ↦
      let e : l ≡ size + (l - size) = omega arith in
      rw t (omega (arith, hit-split a o size (l - size), ap_hit a o l (size + (l - size)) e))
  | inr f ↦ rw f (omega (arith, ap_hit a o size l (ground arith)))
]
  where
    ap_hit : (a o l m : ℕ) → l ≡ m → hit a o l ≡ hit a o m
    ap_hit a o l m e = rw e

-- First fit moves the block that it returns out of the free list, and nothing else.
pub cover-first_fit :
    (a size : ℕ) (free : List Block) (o : ℕ) (rest : List Block)
    → first_fit size free ≡ some (o, rest)
    → hit a o size + cover a rest ≡ cover a free
unfolding first_fit
cover-first_fit a size [] o rest h = cc
cover-first_fit a size ((p, l) ∷ free) o rest h = elim (Option-cases (first_fit size free)) [
  | inl e ↦ ground (arith, cover-cut a size p l free)
  | inr ((q, r), e) ↦ ground (arith, cover-cut a size p l free, cover-first_fit a size free q r e)
]

pub cover-pop :
    (a offset : ℕ) (d : List Block) (s : ℕ) (rest : List Block)
    → pop offset d ≡ some (s, rest)
    → hit a offset s + cover a rest ≡ cover a d
unfolding pop
cover-pop a offset [] s rest h = cc
cover-pop a offset ((p, l) ∷ d) s rest h = elim (Option-cases (pop offset d)) [
  | inl e ↦ ground arith
  | inr ((q, r), e) ↦ ground (arith, cover-pop a offset d q r e)
]

cover-insert_sorted :
    (a : ℕ) (x : Block) (xs : List Block)
    → cover a (insert_sorted x xs) ≡ hit a x.0 x.1 + cover a xs
unfolding insert_sorted
cover-insert_sorted a x [] = refl
cover-insert_sorted a x (y ∷ ys) = ground (arith, cover-insert_sorted a x ys)

pub cover-sort : (a : ℕ) (xs : List Block) → cover a (sort xs) ≡ cover a xs
unfolding sort
cover-sort a [] = refl
cover-sort a (x ∷ xs) = omega (arith, cover-insert_sorted a x (sort xs), cover-sort a xs)

cover-coalesce_from :
    (a o s : ℕ) (xs : List Block) → cover a (coalesce_from (o, s) xs) ≡ hit a o s + cover a xs
unfolding coalesce_from
cover-coalesce_from a o s [] = refl
cover-coalesce_from a o s ((c, d) ∷ xs) =
    ground
      (arith, cover-coalesce_from a o (s + d) xs, cover-coalesce_from a c d xs, hit-split a o s d)

pub cover-coalesce : (a : ℕ) (xs : List Block) → cover a (coalesce xs) ≡ cover a xs
unfolding coalesce
cover-coalesce a [] = refl
cover-coalesce a ((o, s) ∷ xs) = cover-coalesce_from a o s xs
