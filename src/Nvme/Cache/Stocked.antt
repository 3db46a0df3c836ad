-- ===== src/Nvme/Cache/Stocked.antt =====
-- A new cache can load each expert of the store.
use vllm_exl.Prelude.{
  ℕ, ◌+◌, ◌%◌, ◌≤◌, ◌<◌, ◌≡◌, refl, sym, ◌==◌, Bool, true, false, ◌||◌, Option, some, List, [], ◌∷◌,
  ◌⊎◌, ok, arith, Bool-cases, inl, inr, All, map, le→leb, leb, length, ap, suc,
}
use vllm_exl.Prelude.Keys.{member, or-true, or-skip, distinct-member}
use vllm_exl.Nvme.Regions.Defs.{
  Block, Regions, align, aligned, init, first_fit, granted, allocate, pair_leb, insert_sorted, sort,
}
use vllm_exl.Nvme.Cache.Defs.{
  Key, Entry, Cache, region_at, set_region, Attempt, attempt_in, make_room, load,
}
use vllm_exl.Nvme.Cache.Opening.{
  HostMemory, Records, Quotas, layers_of, subset, largest, check_largest, open_regions,
  not_partition, open_cache,
}
use vllm_exl.Nvme.Cache.Partition.{
  Fits, largest-Fits, check_largest-Below, round_ok, open_cache-ran,
}

-- a record of the store
abbrev pub Stored : Key → ℕ → Records → Type 0
Stored k bytes [] = ⊥
Stored k bytes ((j, n) ∷ records) = ((j ≡ k) × (n ≡ bytes)) ⊎ Stored k bytes records

aligned_fits : (n size : ℕ) → size % align ≡ 0 → n ≤ size → aligned n ≤ size
unfolding aligned
aligned_fits n size whole h = omega arith

-- an arena of `size` bytes that is new grants a request of at most `size` bytes
free_grants :
    (base size bytes : ℕ) (r : Regions)
    → init size base ≡ ok r
    → 0 < bytes
    → bytes ≤ size
    → (r' : Regions) × (allocate bytes r ≡ ok (some base, r'))
unfolding init allocate granted first_fit
free_grants base size bytes r made pos fits =
    let new : record { free = (base, size) ∷ []; allocated = [] } ≡ r = ground arith in
    let whole : size % align ≡ 0 = ground arith in
    let room : leb (aligned bytes) size ≡ true = le→leb _ _ (aligned_fits bytes size whole fits) in
    let asks : (bytes == 0) ≡ false = ground arith in rw (sym new, asks, room) (_, refl)

Stored-Fits :
    (k : Key) (bytes size : ℕ) (records : Records)
    → All (Fits k.0 size) records
    → Stored k bytes records
    → bytes ≤ size
Stored-Fits k bytes size [] fits h = elim h [ ]
Stored-Fits k bytes size ((j, n) ∷ records) fits (inl (same, eq)) =
    rw (sym eq) (fits.0 (ap (λ x. x.0) same))
Stored-Fits k bytes size ((j, n) ∷ records) fits (inr later) =
    Stored-Fits k bytes size records fits.1 later

Stored-member :
    (k : Key) (bytes : ℕ) (records : Records)
    → Stored k bytes records
    → member k.0 (map (λ r. r.0.0) records) ≡ true
unfolding member
Stored-member k bytes [] h = elim h [ ]
Stored-member k bytes ((j, n) ∷ records) (inl (same, eq)) =
    let here : j.0 ≡ k.0 = ap (λ x. x.0) same in or-true (k.0 == j.0) _ (ground arith)
Stored-member k bytes ((j, n) ∷ records) (inr later) =
    or-skip (k.0 == j.0) _ (Stored-member k bytes records later)

subset-member :
    (k : ℕ) (is js : List ℕ) → subset is js ≡ true → member k is ≡ true → member k js ≡ true
unfolding member subset
subset-member k [] js s h = absurd (ground arith)
subset-member k (i ∷ is) js s h = elim (Bool-cases (k == i)) [
  | inl t ↦ let same : k ≡ i = ground arith in rw same (ground arith)
  | inr f ↦ subset-member k is js (ground arith) (ground arith)
]

member-insert_sorted :
    (k : ℕ) (q : Block) (qs : Quotas)
    → (k == q.0 || member k (map (λ q. q.0) qs)) ≡ true
    → member k (map (λ q. q.0) (insert_sorted q qs)) ≡ true
unfolding member insert_sorted
member-insert_sorted k q [] h = h
member-insert_sorted k q (p ∷ qs) h = elim (Bool-cases (pair_leb q p)) [
  | inl t ↦ rw t h
  | inr f ↦ rw f (elim (Bool-cases (k == p.0)) [
    | inl e ↦ or-true (k == p.0) _ e
    | inr e ↦ or-skip (k == p.0) _ (member-insert_sorted k q qs (ground arith))
  ])
]

member-sort :
    (k : ℕ) (qs : Quotas)
    → member k (map (λ q. q.0) qs) ≡ true
    → member k (map (λ q. q.0) (sort qs)) ≡ true
unfolding member sort
member-sort k [] h = h
member-sort k (q ∷ qs) h = member-insert_sorted k q (sort qs) (elim (Bool-cases (k == q.0)) [
  | inl e ↦ or-true (k == q.0) _ e
  | inr e ↦ or-skip (k == q.0) _ (member-sort k qs (ground arith))
])

-- the arena of a layer that has a quota
open_regions-region_at :
    (records : Records) (base layer : ℕ) (qs : Quotas) (rs : List (ℕ × Regions))
    → open_regions records base qs ≡ ok rs
    → member layer (map (λ q. q.0) qs) ≡ true
    → (b : ℕ) × (s : ℕ) × (r : Regions) × (region_at layer rs ≡ some r)
      × (init s b ≡ ok r)
      × (check_largest s (largest layer records) ≡ ok tt)
unfolding open_regions member
open_regions-region_at records base layer [] rs h m = absurd (ground arith)
open_regions-region_at records base layer ((l, size) ∷ qs) rs h m =
    let (r, rest, made, fits, opened, same) =
      round_ok l (init size base) (check_largest size (largest l records))
        (open_regions records (base + size) qs) rs h in
    rw (sym same) (elim (Bool-cases (layer == l)) [
      | inl t ↦
          let here : layer ≡ l = ground arith in (base, size, r, rw t refl, made, rw here fits)
      | inr f ↦
          rw f (open_regions-region_at records (base + size) layer qs rest opened (ground arith))
    ])

-- the first attempt of a load is granted
module _ (k : Key) (bytes : ℕ) (c : Cache) (r r' : Regions) (o : ℕ)
    (at : region_at k.0 c.regions ≡ some r) (given : allocate bytes r ≡ ok (some o, r')) where
  room : Cache
  room = record c { regions = set_region k.0 r' c.regions }

  attempt_lem : attempt_in bytes (region_at k.0 c.regions) ≡ Attempt.granted o r'
  attempt_lem = rw at (rw given refl)

  make_room_lem : (n : ℕ) → make_room (suc n) k.0 bytes c ≡ some (ok o, room)
  unfolding make_room room
  make_room_lem n = rw (make_room, attempt_lem) refl

  load-fits :
      (e : Entry) × (c' : Cache) × (load true (ok tt) k bytes c ≡ some (ok e, c'))
      × (e.key ≡ k)
      × (e.size ≡ bytes)
  unfolding load
  load-fits = rw (load, make_room_lem (length c.entries)) (_, _, refl, refl, refl)

chosen_all :
    (capacity : ℕ) (layers : List ℕ) (qs : Quotas)
    → not_partition capacity layers qs ≡ false
    → subset layers (map (λ q. q.0) qs) ≡ true
chosen_all capacity layers qs h = ground arith

-- Each expert of the store, of at least one byte, can be loaded into a new cache: where the guard on
-- the host's memory passes and the copy of its bytes succeeds, a first load returns an entry of its
-- key and its size.
pub open_cache-loads :
    (m : HostMemory) (records : Records) (capacity : ℕ) (layer_quotas : Option Quotas) (reserve : ℕ)
    (c : Cache) (k : Key) (bytes : ℕ)
    → open_cache m records capacity layer_quotas reserve ≡ ok c
    → Stored k bytes records
    → 0 < bytes
    → (e : Entry) × (c' : Cache) × (load true (ok tt) k bytes c ≡ some (ok e, c'))
      × (e.key ≡ k)
      × (e.size ≡ bytes)
unfolding member
open_cache-loads m records capacity layer_quotas reserve c k bytes h stored pos =
    let (room, (qs, chosen, partition, (rs, opened, new))) =
      open_cache-ran m records capacity layer_quotas reserve c h in
    let all = chosen_all capacity (layers_of records) qs partition in
    let in_layers = distinct-member k.0 [] _ (Stored-member k bytes records stored) in
    let quota = member-sort k.0 qs (subset-member k.0 (layers_of records) _ all (seen in_layers)) in
    let (b, s, r, at, made, checked) =
      open_regions-region_at records 0 k.0 (sort qs) rs opened quota in
    let below = check_largest-Below s (largest k.0 records) tt checked in
    let fits = Stored-Fits k bytes s records (largest-Fits k.0 s records below) stored in
    let (r', given) = free_grants b s bytes r made pos fits in
    load-fits k bytes c r r' b (rw (sym new) at) given
  where
    seen : {b : Bool} → (member k.0 [] || b) ≡ true → b ≡ true
    seen h = h
