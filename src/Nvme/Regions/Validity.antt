-- ===== src/Nvme/Regions/Validity.antt =====
-- The well-formedness of an arena, under `allocate` and `release`.
use vllm_exl.Prelude.{
  ℕ, ◌+◌, ◌%◌, ◌<◌, ◌≡◌, refl, ap, List, [], ◌∷◌, ◌++◌, Option, some, none, arith, ◌==◌, Bool-cases,
  inl, inr, All, All-append, ok,
}
use vllm_exl.Nvme.Regions.Defs.{
  Block, Regions, align, aligned, first_fit, insert, pop, allocate, granted, returned, sort,
  coalesce, release,
}
use vllm_exl.Nvme.Regions.Cover.{
  hit, cover, cover-append, cover-first_fit, cover-pop, cover-sort, cover-coalesce, hit_inside,
  hit_le_one,
}
use vllm_exl.Nvme.Regions.Gapped.{Gapped, first_fit-Gapped}
use vllm_exl.Nvme.Regions.Sorting.{Positive, All-sort, coalesce-sort-Gapped, Positive-of_Gapped}
use vllm_exl.Nvme.Regions.Aligned.{
  IsAligned, aligned_bounds, aligned_pos, first_fit-All, coalesce-All, pop-All,
}

-- Every address of the arena lies in exactly one block, free or allocated, and no other address
-- lies in any; blocks are aligned and not empty, and free blocks do not touch.
pub record IsValid (base size : ℕ) (r : Regions) : Type 0 where
  pub partition : (a : ℕ) → cover a r.free + cover a r.allocated ≡ hit a base size
  pub gapped : Gapped r.free
  pub positive : All Positive r.allocated
  pub free_aligned : All IsAligned r.free
  pub allocated_aligned : All IsAligned r.allocated

-- a key whose address no block covers is not in the dict
pub insert_fresh :
    (o s : ℕ) (d : List Block) → All Positive d → cover o d ≡ 0 → insert o s d ≡ d ++ (o, s) ∷ []
unfolding insert
insert_fresh o s [] p h = refl
insert_fresh o s ((q, t) ∷ d) p h = elim (Bool-cases (o == q)) [
  | inl e ↦ absurd (ground (arith, hit_inside o q t))
  | inr e ↦ rw e (ap (◌∷◌ (q, t)) (insert_fresh o s d p.1 (omega arith)))
]

pub pop-append_fresh :
    (o s : ℕ) (d : List Block)
    → All Positive d
    → cover o d ≡ 0
    → pop o (d ++ (o, s) ∷ []) ≡ some (s, d)
unfolding pop
pop-append_fresh o s [] p h = ground arith
pop-append_fresh o s ((q, t) ∷ d) p h = elim (Bool-cases (o == q)) [
  | inl e ↦ absurd (ground (arith, hit_inside o q t))
  | inr e ↦ rw (e, pop-append_fresh o s d p.1 (omega arith)) refl
]

module _ {base size : ℕ} {r : Regions} (v : IsValid base size r) where
  -- where first fit finds a block, no allocated block lies
  pub found_is_free :
      (n o : ℕ) (rest : List Block)
      → first_fit n r.free ≡ some (o, rest)
      → (a : ℕ) → 0 < hit a o n
      → (cover a r.allocated ≡ 0) × (hit a base size ≡ 1)
  found_is_free n o rest e a h =
      let c = cover-first_fit a n r.free o rest e in
      let q = v.partition a in let u = hit_le_one a base size in (omega arith, omega arith)

  granted-IsValid :
      (n : ℕ) (f : Option (ℕ × List Block))
      → 0 < n
      → n % align ≡ 0
      → first_fit n r.free ≡ f
      → IsValid base size (granted n r f).1
  unfolding granted
  granted-IsValid n none h z e = v
  granted-IsValid n (some (o, rest)) h z e =
      let fresh : cover o r.allocated ≡ 0 =
        (found_is_free n o rest e o
          (omega (arith, hit_inside o o n (omega arith) (omega arith)))).0 in
      let aligned' = first_fit-All n r.free o rest z v.free_aligned e in
      rw (insert_fresh o n r.allocated v.positive fresh) (record {
        partition = λ a. omega (
          arith,
          v.partition a,
          cover-first_fit a n r.free o rest e,
          cover-append a r.allocated ((o, n) ∷ []),
        );
        gapped = first_fit-Gapped n r.free o rest h v.gapped e;
        positive = All-append Positive r.allocated ((o, n) ∷ []) v.positive (h, tt);
        free_aligned = aligned'.1;
        allocated_aligned =
            All-append IsAligned r.allocated ((o, n) ∷ []) v.allocated_aligned
              ((aligned'.0, z), tt);
      })

  returned-IsValid :
      (o : ℕ) (f : Option (ℕ × List Block)) (r' : Regions)
      → pop o r.allocated ≡ f
      → returned o r f ≡ ok r'
      → IsValid base size r'
  unfolding returned
  returned-IsValid o none r' e h = cc
  returned-IsValid o (some (s, rest)) r' e h =
      let blocks : List Block = r.free ++ (o, s) ∷ [] in
      let both = λ (a : ℕ).
        let once : cover a blocks + cover a rest ≡ hit a base size = omega (
          arith,
          v.partition a,
          cover-pop a o r.allocated s rest e,
          cover-append a r.free ((o, s) ∷ []),
        ) in
        once in
      let positive' = pop-All Positive o r.allocated s rest v.positive e in
      let aligned' = pop-All IsAligned o r.allocated s rest v.allocated_aligned e in
      let result : r' ≡ record { free = coalesce (sort blocks); allocated = rest } = ground arith in
      rw result (record {
        partition = λ a. omega (arith, both a, cover-coalesce a (sort blocks), cover-sort a blocks);
        gapped =
            coalesce-sort-Gapped blocks
              (All-append Positive r.free ((o, s) ∷ []) (Positive-of_Gapped r.free v.gapped)
                (positive'.0, tt))
              (λ a. omega (arith, both a, cover-sort a blocks, hit_le_one a base size));
        positive = positive'.1;
        free_aligned = coalesce-All (sort blocks) (
            All-sort IsAligned blocks
              (All-append IsAligned r.free ((o, s) ∷ []) v.free_aligned (aligned'.0, tt)));
        allocated_aligned = aligned'.1;
      })

  -- Allocation keeps a valid arena valid, whether or not it finds a block.
  pub allocate-IsValid :
      (n : ℕ) (found : Option ℕ) (r' : Regions)
      → allocate n r ≡ ok (found, r')
      → IsValid base size r'
  unfolding allocate
  allocate-IsValid n found r' h = elim (Bool-cases (n == 0)) [
    | inl t ↦ absurd (ground arith)
    | inr f ↦
        let moved = granted (aligned n) r (first_fit (aligned n) r.free) in
        let result : r' ≡ moved.1 = ground arith in
        rw result (
          granted-IsValid (aligned n) (first_fit (aligned n) r.free) (aligned_pos n (ground arith))
            (aligned_bounds n).0 refl)
  ]

  -- Release, where it finds the block, keeps a valid arena valid: free and allocated blocks partition
  -- its addresses, are aligned and not empty, and free blocks do not touch.
  pub release-IsValid : (o : ℕ) (r' : Regions) → release o r ≡ ok r' → IsValid base size r'
  unfolding release
  release-IsValid o r' h = returned-IsValid o (pop o r.allocated) r' refl h
