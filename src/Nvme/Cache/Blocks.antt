-- ===== src/Nvme/Cache/Blocks.antt =====
-- The allocated blocks of the arenas, counted by layer and offset, and the entries they belong to.
use vllm_exl.Prelude.{
  ℕ, ◌+◌, ◌<◌, ◌≡◌, refl, sym, ◌∙◌, ◌==◌, ◌&&◌, Bool, true, false, none, some, List, [], ◌∷◌, ◌++◌,
  ok, arith, Bool-cases, Option-cases, inl, inr, ◌⊎◌,
}
use vllm_exl.Nvme.Regions.Defs.{Block, Regions, aligned, pop, returned, release, allocate}
use vllm_exl.Nvme.Regions.Validity.{IsValid}
use vllm_exl.Nvme.Regions.Laws.{allocate-some}
use vllm_exl.Nvme.Cache.Defs.{
  Key, key_eq, Entry, Cache, region_at, set_region, find, delete, update, cleared,
}

abbrev pub bit : Bool → ℕ
bit true = 1
bit false = 0

-- how many blocks start at an offset
abbrev pub held : ℕ → List Block → ℕ
held o [] = 0
held o (b ∷ bs) = bit (b.0 == o) + held o bs

-- how many entries of a layer have an offset
abbrev pub owned : ℕ → ℕ → List Entry → ℕ
owned layer o [] = 0
owned layer o (e ∷ es) = bit (e.key.0 == layer && e.offset == o) + owned layer o es

-- the allocated blocks of each arena are those of the entries of its layer, and `extra` blocks more
abbrev pub OwnedBut : (ℕ → ℕ → ℕ) → Cache → Type 0
OwnedBut extra c =
    (layer o : ℕ) (r : Regions)
    → region_at layer c.regions ≡ some r
    → held o r.allocated ≡ extra layer o + owned layer o c.entries

abbrev pub Owned : Cache → Type 0
Owned c = OwnedBut (λ layer o. 0) c

-- one block of one layer
abbrev pub one_at : ℕ → ℕ → ℕ → ℕ → ℕ
one_at l p layer o = bit (l == layer && p == o)

pop-held :
    (p o : ℕ) (bs : List Block) (s : ℕ) (rest : List Block)
    → pop p bs ≡ some (s, rest)
    → held o bs ≡ bit (p == o) + held o rest
unfolding pop
pop-held p o [] s rest h = absurd (ground arith)
pop-held p o ((q, t) ∷ bs) s rest h = elim (Bool-cases (p == q)) [
  | inl e ↦
      let same : p ≡ q = ground arith in let tail : bs ≡ rest = ground arith in rw (same, tail) refl
  | inr e ↦ elim (Option-cases (pop p bs)) [
    | inl m ↦ absurd (ground arith)
    | inr ((u, xs), m) ↦
        let made : (q, t) ∷ xs ≡ rest = ground arith in
        let later = pop-held p o bs u xs m in rw (sym made) (omega (arith, later))
  ]
]

pub pop-none : (p : ℕ) (bs : List Block) → pop p bs ≡ none → held p bs ≡ 0
unfolding pop
pop-none p [] h = refl
pop-none p ((q, t) ∷ bs) h = elim (Bool-cases (p == q)) [
  | inl e ↦ absurd (ground arith)
  | inr e ↦ elim (Option-cases (pop p bs)) [
    | inl m ↦
        let apart : (q == p) ≡ false = ground arith in
        let later = pop-none p bs m in rw apart (omega (arith, later))
    | inr ((u, xs), m) ↦ absurd (ground arith)
  ]
]

-- a block that is held can be released
pub held-release :
    (p : ℕ) (r : Regions) → 0 < held p r.allocated → (r' : Regions) × (release p r ≡ ok r')
unfolding release returned
held-release p r h = elim (Option-cases (pop p r.allocated)) [
  | inl m ↦ absurd (omega (arith, h, pop-none p r.allocated m))
  | inr ((t, rest), m) ↦ rw m (_, refl)
]

pub release-held :
    (p o : ℕ) (r r' : Regions)
    → release p r ≡ ok r'
    → held o r.allocated ≡ bit (p == o) + held o r'.allocated
unfolding release returned
release-held p o r r' h = elim (Option-cases (pop p r.allocated)) [
  | inl m ↦ absurd (ground arith)
  | inr ((s, rest), m) ↦
      let same : rest ≡ r'.allocated = ground arith in
      rw (sym same) (pop-held p o r.allocated s rest m)
]

pub held-append :
    (o : ℕ) (bs : List Block) (b : Block) → held o (bs ++ b ∷ []) ≡ bit (b.0 == o) + held o bs
held-append o [] b = refl
held-append o (c ∷ bs) b = omega (arith, held-append o bs b)

pub owned-append :
    (layer o : ℕ) (es : List Entry) (e : Entry)
    → owned layer o (es ++ e ∷ []) ≡ one_at e.key.0 e.offset layer o + owned layer o es
owned-append layer o [] e = refl
owned-append layer o (d ∷ es) e = omega (arith, owned-append layer o es e)

pub allocate-held :
    {base size : ℕ} {r : Regions}
    → IsValid base size r
    → (n p o : ℕ) (r' : Regions) → allocate n r ≡ ok (some p, r')
    → held o r'.allocated ≡ bit (p == o) + held o r.allocated
allocate-held {r} v n p o r' h =
    let (rest, found, pos, fresh, result) = allocate-some v n p r' h in
    rw result (held-append o r.allocated (p, aligned n))

key_eq-layer : (j k : Key) → key_eq j k ≡ true → j.0 ≡ k.0
key_eq-layer j k h = ground arith

pub delete-owned :
    (k : Key) (es : List Entry) (e : Entry) (layer o : ℕ)
    → find k es ≡ some e
    → owned layer o es ≡ one_at k.0 e.offset layer o + owned layer o (delete k es)
unfolding find delete
delete-owned k [] e layer o h = absurd (ground arith)
delete-owned k (d ∷ es) e layer o h = elim (Bool-cases (key_eq k d.key)) [
  | inl t ↦
      let same : d ≡ e = ground arith in
      let there : d.key.0 ≡ k.0 = sym (key_eq-layer k d.key t) in rw t (rw (there, sym same) refl)
  | inr f ↦
      let later : find k es ≡ some e = ground arith in
      let rest = delete-owned k es e layer o later in rw f (omega (arith, rest))
]

pub update-owned :
    (k : Key) (es : List Entry) (layer o : ℕ)
    → owned layer o (update k cleared es) ≡ owned layer o es
unfolding update
update-owned k [] layer o = refl
update-owned k (d ∷ es) layer o = elim (Bool-cases (key_eq k d.key)) [
  | inl t ↦ rw t refl
  | inr f ↦ rw f (omega (arith, update-owned k es layer o))
]

-- the arena of a layer after an assignment to a layer that is there
set_region-at :
    (l layer : ℕ) (q : Regions) (rs : List (ℕ × Regions)) (r r' : Regions)
    → region_at l rs ≡ some r
    → region_at layer (set_region l q rs) ≡ some r'
    → ((l ≡ layer) × (q ≡ r')) ⊎ (((l == layer) ≡ false) × (region_at layer rs ≡ some r'))
set_region-at l layer q [] r r' h k = absurd (ground arith)
set_region-at l layer q ((m, x) ∷ rs) r r' h k = elim (Bool-cases (l == m)) [
  | inl t ↦ elim (Bool-cases (layer == m)) [
    | inl u ↦ inl (ground arith, ground arith)
    | inr u ↦ inr (ground arith, ground arith)
  ]
  | inr f ↦ elim (Bool-cases (layer == m)) [
    | inl u ↦ inr (ground arith, ground arith)
    | inr u ↦ elim (set_region-at l layer q rs r r' (ground arith) (ground arith)) [
      | inl (a, b) ↦ inl (a, b)
      | inr (a, b) ↦ inr (a, ground arith)
    ]
  ]
]

pub set_region-here :
    (l : ℕ) (q : Regions) (rs : List (ℕ × Regions)) (r : Regions)
    → region_at l rs ≡ some r
    → region_at l (set_region l q rs) ≡ some q
set_region-here l q [] r h = absurd (ground arith)
set_region-here l q ((m, x) ∷ rs) r h = elim (Bool-cases (l == m)) [
  | inl t ↦ rw (t, t) refl
  | inr f ↦ rw (f, f) (set_region-here l q rs r (ground arith))
]

pub one_at_same : (l p o : ℕ) → one_at l p l o ≡ bit (p == o)
one_at_same l p o = let same : (l == l) ≡ true = ground arith in rw same refl

pub one_at_other : (l p layer o : ℕ) → (l == layer) ≡ false → one_at l p layer o ≡ 0
one_at_other l p layer o h = rw h refl

-- a step that changes the arena of one layer, and its entries by as many
pub moved :
    (extra extra' : ℕ → ℕ → ℕ) (l : ℕ) (r q : Regions) (c c' : Cache)
    → region_at l c.regions ≡ some r
    → set_region l q c.regions ≡ c'.regions
    → ((o : ℕ)
        → held o r.allocated + (extra' l o + owned l o c'.entries)
          ≡ held o q.allocated + (extra l o + owned l o c.entries))
    → ((layer o : ℕ)
        → (l == layer) ≡ false
        → extra' layer o + owned layer o c'.entries ≡ extra layer o + owned layer o c.entries)
    → OwnedBut extra c
    → OwnedBut extra' c'
moved extra extra' l r q c c' at made same other h layer o r' at' =
    elim (set_region-at l layer q c.regions r r' at (rw made at')) [
      | inl (here, now) ↦
          let counted = same o in
          let before = h l o r at in rw (sym now, sym here) (omega (arith, counted, before))
      | inr (apart, before) ↦ h layer o r' before ∙ sym (other layer o apart)
    ]
