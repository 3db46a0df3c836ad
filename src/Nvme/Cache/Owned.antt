-- ===== src/Nvme/Cache/Owned.antt =====
-- The blocks of the arenas and the entries they belong to, under `_evict` and `_load`.
use vllm_exl.Prelude.{
  ℕ, zero, suc, ◌+◌, ◌<◌, ◌≡◌, refl, ◌==◌, Bool, true, false, Option, none, some, ltb, Result, ok,
  raise, arith, Bool-cases, Option-cases, Result-cases, inl, inr, length,
}
use mathlib.Core.Path.{subst}
use vllm_exl.Nvme.Regions.Defs.{Regions, allocate}
use vllm_exl.Nvme.Cache.Defs.{
  Key, Entry, Cache, Outcome, region_at, set_region, find, released, release_in, evict_entry, evict,
  candidate, Attempt, refused, granted, full, attempt_in, make_room, new_entry, finish, finish_all,
  load,
}
use vllm_exl.Nvme.Cache.Entries.{put_fresh}
use vllm_exl.Nvme.Cache.Leases.{evict-Absent}
use vllm_exl.Nvme.Cache.Arena.{Arenas, region_at-Valid, evict-Arenas, load-Arenas}
use vllm_exl.Nvme.Cache.Blocks.{
  bit, held, OwnedBut, Owned, one_at, held-release, release-held, owned-append, allocate-held,
  delete-owned, update-owned, set_region-here, one_at_same, one_at_other, moved,
}

evict-Owned : (k : Key) (c : Cache) → Owned c → Owned (evict k c).1
unfolding evict
evict-Owned k c h = elim (Option-cases (find k c.entries)) [
  | inl m ↦ rw (m, evict_entry) h
  | inr (e, m) ↦ elim (Bool-cases (ltb 0 e.users)) [
    | inl t ↦ rw (m, evict_entry, t) h
    | inr f ↦ elim (Result-cases (release_in e (region_at k.0 c.regions))) [
      | inr (x, n) ↦
          rw (m, evict_entry, f, n, released)
            (λ layer o r at. omega (arith, h layer o r at, update-owned k c.entries layer o))
      | inl (q, n) ↦
          rw (m, evict_entry, f, n, released) (of_release e q m (region_at k.0 c.regions) refl n)
    ]
  ]
]
  where
    of_release :
        (e : Entry) (q : Regions)
        → find k c.entries ≡ some e
        → (a : Option Regions) → region_at k.0 c.regions ≡ a
        → release_in e a ≡ ok q
        → Owned (released k e c (ok q)).1
    of_release e q m none at n = absurd (ground arith)
    of_release e q m (some r) at n =
        moved (λ layer o. 0) (λ layer o. 0) k.0 r q c (released k e c (ok q)).1 at refl
          (λ o. omega (
            arith,
            release-held e.offset o r q n,
            delete-owned k c.entries e k.0 o m,
            one_at_same k.0 e.offset o,
          ))
          (λ layer o apart.
            omega (
              arith,
              delete-owned k c.entries e layer o m,
              one_at_other k.0 e.offset layer o apart,
            ))
          h

-- The result of the allocation for a key: where it raised, each block has its entry; where it was
-- granted, the new block has none yet, and the key has no entry.
abbrev Room : Key → Option (Outcome ℕ) → Type 0
Room k none = Unit
Room k (some (raise e, c)) = Owned c
Room k (some (ok p, c)) =
    OwnedBut (one_at k.0 p) c
    × (find k c.entries ≡ none)
    × ((r : Regions) × (region_at k.0 c.regions ≡ some r))

-- what is known of the cache before a round of the loop
record Ready (extent : ℕ → ℕ × ℕ) (k : Key) (c : Cache) : Type 0 where
  arenas : Arenas extent c
  blocks : Owned c
  absent : find k c.entries ≡ none

module _ (extent : ℕ → ℕ × ℕ) (k : Key) where
  grant-Room :
      (bytes p : ℕ) (q : Regions) (c : Cache)
      → Ready extent k c
      → (a : Option Regions) → region_at k.0 c.regions ≡ a
      → attempt_in bytes a ≡ granted p q
      → Room k (some (ok p, record c { regions = set_region k.0 q c.regions }))
  grant-Room bytes p q c ready none at m = absurd (ground arith)
  grant-Room bytes p q c ready (some r) at m = elim (Result-cases (allocate bytes r)) [
    | inr (e, n) ↦ absurd (ground arith)
    | inl ((none, x), n) ↦ absurd (ground arith)
    | inl ((some o, x), n) ↦
        let same : x ≡ q = ground arith in
        let there : o ≡ p = ground arith in
        let given : allocate bytes r ≡ ok (some p, q) = cc in
        let v = region_at-Valid extent k.0 c.regions r ready.arenas at in
        (
          moved (λ layer o. 0) (one_at k.0 p) k.0 r q c
              (record c { regions = set_region k.0 q c.regions }) at refl
              (λ o. omega (arith, allocate-held v bytes p o q given, one_at_same k.0 p o))
              (λ layer o apart. omega (arith, one_at_other k.0 p layer o apart)) ready.blocks,
          ready.absent,
          (q, set_region-here k.0 q c.regions r at),
        )
  ]

  evict-Ready : (j : Key) (c : Cache) → Ready extent k c → Ready extent k (evict j c).1
  evict-Ready j c ready = record {
    arenas = evict-Arenas extent j c ready.arenas;
    blocks = evict-Owned j c ready.blocks;
    absent = evict-Absent j c k ready.absent;
  }

  make_room_round :
      (fuel bytes : ℕ) (c : Cache)
      → Ready extent k c
      → ((d : Cache) → Ready extent k d → Room k (make_room fuel k.0 bytes d))
      → (a : Attempt) → attempt_in bytes (region_at k.0 c.regions) ≡ a
      → Room k (make_room (suc fuel) k.0 bytes c)
  unfolding make_room
  make_room_round fuel bytes c v next (refused e) m = rw (make_room, m, Room) v.blocks
  make_room_round fuel bytes c v next (granted o r) m =
      rw (make_room, m) (grant-Room bytes o r c v (region_at k.0 c.regions) refl m)
  make_room_round fuel bytes c v next full m = elim (Option-cases (candidate k.0 c.entries)) [
    | inl n ↦ rw (make_room, m, n, Room) v.blocks
    | inr (j, n) ↦ elim (Result-cases (evict j c).0) [
      | inr (e, x) ↦ rw (make_room, m, n, x, Room) (evict-Owned j c v.blocks)
      | inl (u, x) ↦ rw (make_room, m, n, x) (next (evict j c).1 (evict-Ready j c v))
    ]
  ]

  make_room-Room :
      (fuel bytes : ℕ) (c : Cache) → Ready extent k c → Room k (make_room fuel k.0 bytes c)
  unfolding make_room
  make_room-Room zero bytes c v = tt
  make_room-Room (suc fuel) bytes c v =
      make_room_round fuel bytes c v (λ d w. make_room-Room fuel bytes d w)
        (attempt_in bytes (region_at k.0 c.regions)) refl

  -- the block that was granted goes to the new entry, or back
  finish-Owned :
      (bytes p : ℕ) (copied : Result (Unit {0})) (c : Cache)
      → Room k (some (ok p, c))
      → Owned (finish k bytes p copied c).1
  finish-Owned bytes p (ok u) c (h, absent, present) =
      rw (put_fresh (new_entry k bytes p c) c.entries absent) (λ layer o r at.
        omega (arith, h layer o r at, owned-append layer o c.entries (new_entry k bytes p c)))
  finish-Owned bytes p (raise e) c (h, absent, (r, at)) =
      let one : 0 < held p r.allocated =
        omega (arith, h k.0 p r at, one_at_same k.0 p p, bit_refl p) in
      let (q, done) = held-release p r one in
      rw (at, done)
        (moved (one_at k.0 p) (λ layer o. 0) k.0 r q c
          (record c { regions = set_region k.0 q c.regions; failures = c.failures + 1 }) at refl
          (λ o. omega (arith, release-held p o r q done, one_at_same k.0 p o))
          (λ layer o apart. omega (arith, one_at_other k.0 p layer o apart)) h)
    where
      bit_refl : (p : ℕ) → bit (p == p) ≡ 1
      bit_refl p = let same : (p == p) ≡ true = ground arith in rw same refl

  abbrev Left : Option (Outcome Entry) → Type 0
  Left none = Unit
  Left (some o) = Owned o.1

  finish_all-Owned :
      (bytes : ℕ) (copied : Result (Unit {0})) (o : Option (Outcome ℕ))
      → Room k o
      → Left (finish_all k bytes copied o)
  finish_all-Owned bytes copied none v = tt
  finish_all-Owned bytes copied (some (raise e, c)) v = v
  finish_all-Owned bytes copied (some (ok p, c)) v = finish-Owned bytes p copied c v

  -- Where every arena of a cache is valid and its allocated blocks are, by layer and offset, those of
  -- the entries of its layer, each of them once, a load of a key that has no entry leaves both so,
  -- with its evictions and whether it returns or raises: no byte is lost, no two blocks overlap, and
  -- no block is left without an entry.
  pub load-Owned :
      (guarded : Bool) (copied : Result (Unit {0})) (bytes : ℕ) (c : Cache) (o : Outcome Entry)
      → Arenas extent c
      → Owned c
      → find k c.entries ≡ none
      → load guarded copied k bytes c ≡ some o
      → Arenas extent o.1 × Owned o.1
  unfolding load
  load-Owned guarded copied bytes c o v w absent h =
      (load-Arenas extent guarded copied k bytes c o v h, read (by_guard guarded) h)
    where
      by_guard : (g : Bool) → Left (load g copied k bytes c)
      by_guard false = w
      by_guard true = finish_all-Owned bytes copied _ (
          make_room-Room (suc (length c.entries)) bytes c
            (record { arenas = v; blocks = w; absent = absent }))

      read : {x : Option (Outcome Entry)} → Left x → x ≡ some o → Owned o.1
      read w e = subst Left e w
