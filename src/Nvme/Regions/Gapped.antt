-- ===== src/Nvme/Regions/Gapped.antt =====
-- Free lists in normal form: blocks in ascending order, none empty, none touching the next.
use vllm_exl.Prelude.{
  ℕ, ◌+◌, ◌≤◌, ◌<◌, ◌≡◌, refl, sym, leb, some, Option-cases, some, List, [], ◌∷◌, arith, ◌⊎◌, inl,
  inr, ltb, ltb→lt, Bool-cases,
}
use vllm_exl.Nvme.Regions.Defs.{Block, cut, first_fit}
use vllm_exl.Nvme.Regions.Cover.{hit, cover, hit_inside, hit_below, hit_above}

-- the first block starts after `n`
abbrev pub After : ℕ → List Block → Type 0
After n [] = Unit
After n ((o, s) ∷ xs) = n < o

abbrev pub Gapped : List Block → Type 0
Gapped [] = Unit
Gapped ((o, s) ∷ xs) = (0 < s) × After (o + s) xs × Gapped xs

pub After-mono : (m n : ℕ) (xs : List Block) → m ≤ n → After n xs → After m xs
After-mono m n [] h k = tt
After-mono m n ((o, s) ∷ xs) h k = omega arith

pub cover_before : (a n : ℕ) (xs : List Block) → a ≤ n → After n xs → Gapped xs → cover a xs ≡ 0
cover_before a n [] h k g = refl
cover_before a n ((o, s) ∷ xs) h k g =
    omega (arith, hit_below a o s (omega arith), cover_before a (o + s) xs (omega arith) g.1 g.2)

-- the address where a block starts, or lies, is covered
cover_at_start : (o s : ℕ) (xs : List Block) → 0 < s → 0 < cover o ((o, s) ∷ xs)
cover_at_start o s xs h = omega (arith, hit_inside o o s (omega arith) (omega arith))

-- where a gapped list covers `a`, its first block starts at or before `a`
start-le : (a o s : ℕ) (xs : List Block) → Gapped ((o, s) ∷ xs) → 0 < cover a ((o, s) ∷ xs) → o ≤ a
start-le a o s xs g h = elim (split a o) [
  | inl k ↦ k
  | inr k ↦
      absurd (omega (arith, hit_below a o s k, cover_before a (o + s) xs (omega arith) g.1 g.2))
]
  where
    split : (a o : ℕ) → (o ≤ a) ⊎ (a < o)
    split a o = omega arith

-- right behind its first block a gapped list covers nothing
cover_behind : (o s : ℕ) (xs : List Block) → Gapped ((o, s) ∷ xs) → cover (o + s) ((o, s) ∷ xs) ≡ 0
cover_behind o s xs g = omega (
  arith,
  hit_above (o + s) o s (omega arith),
  cover_before (o + s) (o + s) xs (omega arith) g.1 g.2,
)

-- two gapped lists with one cover start at one address
starts_agree :
    (o s p t : ℕ) (xs ys : List Block)
    → Gapped ((o, s) ∷ xs)
    → Gapped ((p, t) ∷ ys)
    → ((a : ℕ) → cover a ((o, s) ∷ xs) ≡ cover a ((p, t) ∷ ys))
    → p ≤ o
starts_agree o s p t xs ys g k e =
    start-le o p t ys k (omega (arith, e o, cover_at_start o s xs g.0))

-- and their first blocks have one size
sizes_agree :
    (o s p t : ℕ) (xs ys : List Block)
    → o ≡ p
    → Gapped ((o, s) ∷ xs)
    → ((a : ℕ) → cover a ((o, s) ∷ xs) ≡ cover a ((p, t) ∷ ys))
    → t ≤ s
sizes_agree o s p t xs ys q g e = elim (split s t) [
  | inl h ↦ h
  | inr h ↦ absurd (
      omega (
        arith,
        e (o + s),
        cover_behind o s xs g,
        hit_inside (o + s) p t (omega arith) (omega arith),
      ))
]
  where
    split : (s t : ℕ) → (t ≤ s) ⊎ (s < t)
    split s t = omega arith

heads_agree :
    (o s p t : ℕ) (xs ys : List Block)
    → Gapped ((o, s) ∷ xs)
    → Gapped ((p, t) ∷ ys)
    → ((a : ℕ) → cover a ((o, s) ∷ xs) ≡ cover a ((p, t) ∷ ys))
    → (o ≡ p) × (s ≡ t)
heads_agree o s p t xs ys g k e =
    let e' = λ (a : ℕ). sym (e a) in
    let q : o ≡ p =
      omega (arith, starts_agree o s p t xs ys g k e, starts_agree p t o s ys xs k g e') in
    (q, omega (arith, sizes_agree o s p t xs ys q g e, sizes_agree p t o s ys xs (sym q) k e'))

block_cons :
    {o s p t : ℕ} {xs ys : List Block}
    → (o ≡ p) × (s ≡ t)
    → xs ≡ ys
    → ◌≡◌ {A = List Block} ((o, s) ∷ xs) ((p, t) ∷ ys)
block_cons h e = cc (h.0, h.1)

-- A gapped list is determined by the addresses that it covers.
pub Gapped-unique :
    (xs ys : List Block) → Gapped xs → Gapped ys → ((a : ℕ) → cover a xs ≡ cover a ys) → xs ≡ ys
Gapped-unique [] [] g k e = refl
Gapped-unique [] ((p, t) ∷ ys) g k e = absurd (omega (arith, e p, cover_at_start p t ys k.0))
Gapped-unique ((o, s) ∷ xs) [] g k e = absurd (omega (arith, e o, cover_at_start o s xs g.0))
Gapped-unique ((o, s) ∷ xs) ((p, t) ∷ ys) g k e =
    let h = heads_agree o s p t xs ys g k e in
    block_cons h (Gapped-unique xs ys g.2 k.2 λ a. omega (arith, e a, hit_cong a o s p t h.0 h.1))
  where
    hit_cong : (a o s p t : ℕ) → o ≡ p → s ≡ t → hit a o s ≡ hit a p t
    hit_cong a o s p t q r = cc

-- A cut leaves a gapped list gapped, and it starts no earlier.
cut-Gapped :
    (size o l : ℕ) (rest : List Block)
    → 0 < size
    → Gapped ((o, l) ∷ rest)
    → Gapped (cut size (o, l) rest)
unfolding cut
cut-Gapped size o l rest h g = elim (Bool-cases (ltb size l)) [
  | inl t ↦
      let lt = ltb→lt size l t in
      rw (t, Gapped) (omega arith, After-mono _ (o + l) rest (omega arith) g.1, g.2)
  | inr f ↦ rw (f, Gapped) g.2
]

After-cut :
    (n size o l : ℕ) (rest : List Block)
    → n < o
    → Gapped ((o, l) ∷ rest)
    → After n (cut size (o, l) rest)
unfolding cut
After-cut n size o l rest h g = elim (Bool-cases (ltb size l)) [
  | inl t ↦ rw (t, After) (omega arith)
  | inr f ↦ rw (f, After) (After-mono n (o + l) rest (omega arith) g.1)
]

After-first_fit :
    (n size : ℕ) (free : List Block) (o : ℕ) (rest : List Block)
    → Gapped free
    → After n free
    → first_fit size free ≡ some (o, rest)
    → After n rest
unfolding first_fit
After-first_fit n size [] o rest g h e = cc
After-first_fit n size ((p, l) ∷ free) o rest g h e = elim (Bool-cases (leb size l)) [
  | inl t ↦
      let q : rest ≡ cut size (p, l) free = ground arith in rw q (After-cut n size p l free h g)
  | inr f ↦ elim (Option-cases (first_fit size free)) [
    | inl m ↦ absurd (ground arith)
    | inr ((k, r), m) ↦ let q : rest ≡ (p, l) ∷ r = ground arith in rw q h
  ]
]

pub first_fit-Gapped :
    (size : ℕ) (free : List Block) (o : ℕ) (rest : List Block)
    → 0 < size
    → Gapped free
    → first_fit size free ≡ some (o, rest)
    → Gapped rest
unfolding first_fit
first_fit-Gapped size [] o rest h g e = cc
first_fit-Gapped size ((p, l) ∷ free) o rest h g e = elim (Bool-cases (leb size l)) [
  | inl t ↦
      let q : rest ≡ cut size (p, l) free = ground arith in rw q (cut-Gapped size p l free h g)
  | inr f ↦ elim (Option-cases (first_fit size free)) [
    | inl m ↦ absurd (ground arith)
    | inr ((k, r), m) ↦
        let q : rest ≡ (p, l) ∷ r = ground arith in
        rw q (
          g.0,
          After-first_fit (p + l) size free k r g.2 g.1 m,
          first_fit-Gapped size free k r h g.2 m,
        )
  ]
]
