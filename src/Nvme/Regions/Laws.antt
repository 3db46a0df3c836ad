-- ===== src/Nvme/Regions/Laws.antt =====
-- What `allocate` and `release` do to an arena, and to one another.
use vllm_exl.Prelude.{
  ℕ, ◌+◌, ◌%◌, ◌≤◌, ◌<◌, ◌≡◌, refl, ap, List, [], ◌∷◌, ◌++◌, some, none, arith, ◌==◌, inl, inr, All,
  Option-cases, ok, le→leb, false, ◌∙◌,
}
use vllm_exl.Nvme.Regions.Defs.{
  Block, Regions, align, aligned, init, first_fit, allocate, granted, returned, sort, coalesce,
  release,
}
use vllm_exl.Nvme.Regions.Cover.{hit, cover, hit_inside, hit_pos}
use vllm_exl.Nvme.Regions.Gapped.{Gapped-unique}
use vllm_exl.Nvme.Regions.Aligned.{aligned_bounds, aligned_pos, first_fit-All}
use vllm_exl.Nvme.Regions.Validity.{
  IsValid, found_is_free, insert_fresh, pop-append_fresh, allocate-IsValid, release-IsValid,
}

-- A new arena is valid.
pub init-IsValid : (size base : ℕ) (r : Regions) → init size base ≡ ok r → IsValid base size r
unfolding init
init-IsValid size base r h =
    let result : r ≡ record { free = (base, size) ∷ []; allocated = [] } = ground arith in
    let a : size % align ≡ 0 = ground arith in
    let b : base % align ≡ 0 = ground arith in
    let pos : 0 < size = ground arith in
    rw result (record {
      partition = λ x. omega arith;
      gapped = (pos, tt, tt);
      positive = tt;
      free_aligned = ((b, a), tt);
      allocated_aligned = tt;
    })

first_fit-none : (n : ℕ) (free : List Block) → first_fit n free ≡ none → All (λ b. b.1 < n) free
unfolding first_fit
first_fit-none n [] h = tt
first_fit-none n ((o, l) ∷ free) h = elim (Option-cases (first_fit n free)) [
  | inl m ↦ (ground arith, first_fit-none n free m)
  | inr ((k, q), m) ↦ absurd (ground arith)
]

module _ {base size : ℕ} {r : Regions} (v : IsValid base size r) where
  -- Where `allocate` gives up on a valid arena, every free block is shorter than the aligned request,
  -- and the arena is as it was.
  allocate-none :
      (n : ℕ) (r' : Regions)
      → allocate n r ≡ ok (none, r')
      → (r' ≡ r) × All (λ b. b.1 < aligned n) r.free
  unfolding allocate granted
  allocate-none n r' h = elim (Option-cases (first_fit (aligned n) r.free)) [
    | inl m ↦ (ground arith, first_fit-none (aligned n) r.free m)
    | inr ((o, rest), m) ↦ absurd (ground arith)
  ]

  -- what a successful `allocate` did
  pub allocate-some :
      (n o : ℕ) (r' : Regions)
      → allocate n r ≡ ok (some o, r')
      → (rest : List Block) × (first_fit (aligned n) r.free ≡ some (o, rest))
        × (0 < n)
        × (cover o r.allocated ≡ 0)
        × (r' ≡ record { free = rest; allocated = r.allocated ++ (o, aligned n) ∷ [] })
  unfolding allocate granted
  allocate-some n o r' h = elim (Option-cases (first_fit (aligned n) r.free)) [
    | inl m ↦ absurd (ground arith)
    | inr ((k, rest), m) ↦
        let k_eq : k ≡ o = ground arith in
        let pos : 0 < n = ground arith in
        let m' : first_fit (aligned n) r.free ≡ some (o, rest) = cc in
        let fresh =
          (found_is_free v (aligned n) o rest m' o (held o (aligned n) (aligned_pos n pos))).0 in
        let fresh' = insert_fresh o (aligned n) r.allocated v.positive fresh in
        (rest, m', pos, fresh, ground arith)
  ]
    where
      held : (o n : ℕ) → 0 < n → 0 < hit o o n
      held o n h = omega (arith, hit_inside o o n (omega arith) (omega arith))

  -- A block that `allocate` returns from a valid arena is aligned, lies in the arena, and no block that was allocated
  -- before holds any of its addresses.
  pub allocate_block :
      (n o : ℕ) (r' : Regions)
      → allocate n r ≡ ok (some o, r')
      → (o % align ≡ 0)
        × ((a : ℕ) → o ≤ a → a < o + n → (cover a r.allocated ≡ 0) × (base ≤ a) × (a < base + size))
  allocate_block n o r' h =
      let (rest, found, pos, fresh, result) = allocate-some n o r' h in
      let bounds = aligned_bounds n in
      (
        (first_fit-All (aligned n) r.free o rest bounds.0 v.free_aligned found).0,
        λ a lo hi.
            let hit' = hit_inside a o (aligned n) lo (omega arith) in
            let (free', inside) = found_is_free v (aligned n) o rest found a (omega arith) in
            let (low, high) = hit_pos a base size (omega arith) in (free', low, high),
      )

  -- On a valid arena release undoes allocate: the arena is exactly as it was, its free list included.
  pub release-allocate :
      (n o : ℕ) (r' : Regions) → allocate n r ≡ ok (some o, r') → release o r' ≡ ok r
  unfolding release returned
  release-allocate n o r' h =
      let (rest, found, pos, fresh, result) = allocate-some n o r' h in
      let blocks : List Block = rest ++ (o, aligned n) ∷ [] in
      let r'' : Regions = record { free = coalesce (sort blocks); allocated = r.allocated } in
      let popped = pop-append_fresh o (aligned n) r.allocated v.positive fresh in
      let done : release o r' ≡ ok r'' = rw (result, popped) refl in
      let v'' = release-IsValid (allocate-IsValid v n (some o) r' h) o r'' done in
      let same : r''.free ≡ r.free =
        Gapped-unique r''.free r.free v''.gapped v.gapped
          λ a. omega (arith, v''.partition a, v.partition a) in
      done ∙ ap (λ f. ok (record { free = f; allocated = r.allocated })) same

  -- an arena with nothing allocated is one free block
  drained : 0 < size → r.allocated ≡ [] → r.free ≡ (base, size) ∷ []
  drained h e =
      Gapped-unique r.free ((base, size) ∷ []) v.gapped (h, tt, tt)
        λ a.
          let none_there : cover a r.allocated ≡ 0 = ap (cover a) e in omega (arith, v.partition a)

  -- A valid arena with nothing allocated is one free block, whatever was allocated and released
  -- before: nothing is lost and nothing stays split, and every request that the arena can hold at
  -- all is granted, at its base.
  pub allocate_drained :
      (n : ℕ)
      → 0 < n
      → aligned n ≤ size
      → r.allocated ≡ []
      → (r.free ≡ (base, size) ∷ []) × (r' : Regions) × (allocate n r ≡ ok (some base, r'))
  unfolding allocate first_fit granted
  allocate_drained n h k e =
      let q = drained (omega (arith, aligned_pos n h)) e in
      let t : (n == 0) ≡ false = ground arith in
      let found : (r' : Regions) × (allocate n r ≡ ok (some base, r')) =
        rw (t, q, le→leb (aligned n) size k) (_, refl) in
      (q, found.0, found.1)
