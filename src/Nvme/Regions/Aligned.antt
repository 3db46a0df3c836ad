-- ===== src/Nvme/Regions/Aligned.antt =====
-- Alignment of blocks, and how the operations on lists of blocks keep it.
use vllm_exl.Prelude.{
  ℕ, ◌+◌, ◌%◌, ◌≤◌, ◌<◌, ◌≡◌, List, [], ◌∷◌, some, arith, ltb, ltb→lt, leb, ◌==◌, Bool-cases,
  Option-cases, inl, inr, All,
}
use vllm_exl.Nvme.Regions.Defs.{Block, align, aligned, cut, first_fit, pop, coalesce_from, coalesce}

abbrev pub IsAligned : Block → Type 0
IsAligned b = (b.0 % align ≡ 0) × (b.1 % align ≡ 0)

-- `aligned` rounds up to a multiple of `align`, by less than one step.
pub aligned_bounds : (n : ℕ) → (aligned n % align ≡ 0) × (n ≤ aligned n) × (aligned n < n + align)
unfolding aligned
aligned_bounds n = omega arith

pub aligned_pos : (n : ℕ) → 0 < n → 0 < aligned n
aligned_pos n h = omega (arith, (aligned_bounds n).1)

cut-All :
    (size o l : ℕ) (rest : List Block)
    → size % align ≡ 0
    → All IsAligned ((o, l) ∷ rest)
    → All IsAligned (cut size (o, l) rest)
unfolding cut
cut-All size o l rest z h = elim (Bool-cases (ltb size l)) [
  | inl t ↦
      let lt = ltb→lt size l t in
      let a = h.0.0 in let b = h.0.1 in rw (t, All) ((omega arith, omega arith), h.1)
  | inr f ↦ rw (f, All) h.1
]

-- The offset that first fit returns is aligned, and so are the blocks that it leaves.
pub first_fit-All :
    (size : ℕ) (free : List Block) (o : ℕ) (rest : List Block)
    → size % align ≡ 0
    → All IsAligned free
    → first_fit size free ≡ some (o, rest)
    → (o % align ≡ 0) × All IsAligned rest
unfolding first_fit
first_fit-All size [] o rest z h e = cc
first_fit-All size ((p, l) ∷ free) o rest z h e = elim (Bool-cases (leb size l)) [
  | inl t ↦
      let q : rest ≡ cut size (p, l) free = ground arith in
      let q' : o ≡ p = ground arith in (rw q' h.0.0, rw q (cut-All size p l free z h))
  | inr f ↦ elim (Option-cases (first_fit size free)) [
    | inl m ↦ absurd (ground arith)
    | inr ((k, r), m) ↦
        let ih = first_fit-All size free k r z h.1 m in
        let q : rest ≡ (p, l) ∷ r = ground arith in
        let q' : o ≡ k = ground arith in (rw q' ih.0, rw q (h.0, ih.1))
  ]
]

pub coalesce_from-All :
    (o s : ℕ) (xs : List Block)
    → All IsAligned ((o, s) ∷ xs)
    → All IsAligned (coalesce_from (o, s) xs)
unfolding coalesce_from
coalesce_from-All o s [] h = h
coalesce_from-All o s ((c, d) ∷ xs) h = elim (Bool-cases (o + s == c)) [
  | inl t ↦
      let a = h.0.0 in
      let b = h.0.1 in
      let k = h.1.0.1 in rw (t, All) (coalesce_from-All o (s + d) xs ((a, omega arith), h.1.1))
  | inr f ↦ rw (f, All) (h.0, coalesce_from-All c d xs h.1)
]

pub coalesce-All : (xs : List Block) → All IsAligned xs → All IsAligned (coalesce xs)
unfolding coalesce
coalesce-All [] h = h
coalesce-All ((o, s) ∷ xs) h = coalesce_from-All o s xs h

-- What `pop` returns has the property of every block, and so has what it leaves.
pub pop-All {ℓ} :
    (P : Block → Type ℓ) (offset : ℕ) (d : List Block) (s : ℕ) (rest : List Block)
    → All P d
    → pop offset d ≡ some (s, rest)
    → P (offset, s) × All P rest
unfolding pop
pop-All P offset [] s rest h e = cc
pop-All P offset ((p, l) ∷ d) s rest h e = elim (Bool-cases (offset == p)) [
  | inl t ↦
      let q : ◌≡◌ {A = Block} (offset, s) (p, l) = ground arith in
      let q' : rest ≡ d = ground arith in (rw q h.0, rw q' h.1)
  | inr f ↦ elim (Option-cases (pop offset d)) [
    | inl m ↦ absurd (ground arith)
    | inr ((k, r), m) ↦
        let ih = pop-All P offset d k r h.1 m in
        let q : s ≡ k = ground arith in
        let q' : rest ≡ (p, l) ∷ r = ground arith in (rw q ih.0, rw q' (h.0, ih.1))
  ]
]
