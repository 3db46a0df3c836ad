-- ===== src/Nvme/Cache/Arena.antt =====
-- The validity of the arenas of the layers, under `_evict` and `_load`.
use mathlib.Core.Path.{subst}
use vllm_exl.Prelude.{
  ℕ, zero, suc, ◌≡◌, refl, sym, ◌==◌, Bool, true, false, Option, none, some, List, [], ◌∷◌, ltb,
  Result, ok, raise, arith, Bool-cases, Option-cases, Result-cases, inl, inr, All, length,
}
use vllm_exl.Nvme.Regions.Defs.{Regions, allocate, release}
use vllm_exl.Nvme.Regions.Validity.{IsValid, allocate-IsValid, release-IsValid}
use vllm_exl.Nvme.Cache.Defs.{
  Key, Entry, Cache, Outcome, region_at, set_region, find, released, release_in, evict_entry, evict,
  candidate, Attempt, refused, granted, full, attempt_in, make_room, release_at, finish, finish_all,
  load,
}

-- `extent` is the base and the size of the arena of a layer
module _ (extent : ℕ → ℕ × ℕ) where
  abbrev pub Valid : ℕ × Regions → Type 0
  Valid (layer, r) = IsValid (extent layer).0 (extent layer).1 r

  abbrev pub Arenas : Cache → Type 0
  Arenas c = All Valid c.regions

  pub region_at-Valid :
      (layer : ℕ) (rs : List (ℕ × Regions)) (r : Regions)
      → All Valid rs
      → region_at layer rs ≡ some r
      → Valid (layer, r)
  region_at-Valid layer [] r v h = absurd (ground arith)
  region_at-Valid layer ((l, q) ∷ rs) r v h = elim (Bool-cases (layer == l)) [
    | inl t ↦
        let here : layer ≡ l = ground arith in
        let same : q ≡ r = ground arith in rw (here, sym same) v.0
    | inr f ↦ region_at-Valid layer rs r v.1 (ground arith)
  ]

  pub set_region-Valid :
      (layer : ℕ) (r : Regions) (rs : List (ℕ × Regions))
      → All Valid rs
      → Valid (layer, r)
      → All Valid (set_region layer r rs)
  set_region-Valid layer r [] v h = tt
  set_region-Valid layer r ((l, q) ∷ rs) v h = elim (Bool-cases (layer == l)) [
    | inl t ↦ let here : l ≡ layer = ground arith in rw t (rw here h, v.1)
    | inr f ↦ rw f (v.0, set_region-Valid layer r rs v.1 h)
  ]

  release_at-Valid :
      (layer offset : ℕ) (rs : List (ℕ × Regions)) (r : Regions)
      → All Valid rs
      → release_at offset (region_at layer rs) ≡ ok r
      → Valid (layer, r)
  release_at-Valid layer offset rs r v h = elim (Option-cases (region_at layer rs)) [
    | inl m ↦ absurd (ground arith)
    | inr (q, m) ↦
        let done : release offset q ≡ ok r = ground arith in
        release-IsValid (region_at-Valid layer rs q v m) offset r done
  ]

  pub evict-Arenas : (k : Key) (c : Cache) → Arenas c → Arenas (evict k c).1
  unfolding evict
  evict-Arenas k c v = elim (Option-cases (find k c.entries)) [
    | inl m ↦ rw (m, evict_entry) v
    | inr (e, m) ↦ elim (Bool-cases (ltb 0 e.users)) [
      | inl t ↦ rw (m, evict_entry, t) v
      | inr f ↦ elim (Result-cases (release_in e (region_at k.0 c.regions))) [
        | inr (x, n) ↦ rw (m, evict_entry, f, n, released) v
        | inl (r, n) ↦
            let at : release_at e.offset (region_at k.0 c.regions) ≡ ok r =
              same e (region_at k.0 c.regions) r n in
            rw (m, evict_entry, f, n, released)
              (set_region-Valid k.0 r c.regions v (release_at-Valid k.0 e.offset c.regions r v at))
      ]
    ]
  ]
    where
      same :
          (e : Entry) (o : Option Regions) (r : Regions)
          → release_in e o ≡ ok r
          → release_at e.offset o ≡ ok r
      same e none r h = h
      same e (some q) r h = h

  pub attempt-Valid :
      (bytes layer : ℕ) (rs : List (ℕ × Regions)) (o : ℕ) (r : Regions)
      → All Valid rs
      → attempt_in bytes (region_at layer rs) ≡ granted o r
      → Valid (layer, r)
  attempt-Valid bytes layer rs o r v h = elim (Option-cases (region_at layer rs)) [
    | inl m ↦ absurd (ground arith)
    | inr (q, m) ↦ elim (Result-cases (allocate bytes q)) [
      | inr (e, n) ↦ absurd (ground arith)
      | inl ((none, q'), n) ↦ absurd (ground arith)
      | inl ((some p, q'), n) ↦
          let same : q' ≡ r = ground arith in
          rw (sym same) (allocate-IsValid (region_at-Valid layer rs q v m) bytes (some p) q' n)
    ]
  ]

  -- the cache that is left, if the run ended
  abbrev pub Left : {A : Type 0} → Option (Outcome A) → Type 0
  Left none = Unit
  Left (some s) = Arenas s.1

  make_room_round :
      (fuel layer bytes : ℕ) (c : Cache)
      → Arenas c
      → ((d : Cache) → Arenas d → Left (make_room fuel layer bytes d))
      → (a : Attempt) → attempt_in bytes (region_at layer c.regions) ≡ a
      → Left (make_room (suc fuel) layer bytes c)
  unfolding make_room
  make_room_round fuel layer bytes c v next (refused e) m = rw (make_room, m, Left) v
  make_room_round fuel layer bytes c v next (granted o r) m =
      rw (make_room, m, Left)
        (set_region-Valid layer r c.regions v (attempt-Valid bytes layer c.regions o r v m))
  make_room_round fuel layer bytes c v next full m =
      elim (Option-cases (candidate layer c.entries)) [
        | inl n ↦ rw (make_room, m, n, Left) v
        | inr (k, n) ↦ elim (Result-cases (evict k c).0) [
          | inr (e, x) ↦ rw (make_room, m, n, x, Left) (evict-Arenas k c v)
          | inl (u, x) ↦ rw (make_room, m, n, x) (next (evict k c).1 (evict-Arenas k c v))
        ]
      ]

  make_room-Arenas :
      (fuel layer bytes : ℕ) (c : Cache) → Arenas c → Left (make_room fuel layer bytes c)
  unfolding make_room
  make_room-Arenas zero layer bytes c v = tt
  make_room-Arenas (suc fuel) layer bytes c v =
      make_room_round fuel layer bytes c v (λ d w. make_room-Arenas fuel layer bytes d w)
        (attempt_in bytes (region_at layer c.regions)) refl

  finish-Arenas :
      (k : Key) (bytes offset : ℕ) (copied : Result (Unit {0})) (c : Cache)
      → Arenas c
      → Arenas (finish k bytes offset copied c).1
  finish-Arenas k bytes offset (ok u) c v = v
  finish-Arenas k bytes offset (raise e) c v =
      elim (Result-cases (release_at offset (region_at k.0 c.regions))) [
        | inr (x, m) ↦ rw m v
        | inl (r, m) ↦
            rw m (set_region-Valid k.0 r c.regions v (release_at-Valid k.0 offset c.regions r v m))
      ]

  finish_all-Arenas :
      (k : Key) (bytes : ℕ) (copied : Result (Unit {0})) (o : Option (Outcome ℕ))
      → Left o
      → Left (finish_all k bytes copied o)
  finish_all-Arenas k bytes copied none v = tt
  finish_all-Arenas k bytes copied (some (raise e, c)) v = v
  finish_all-Arenas k bytes copied (some (ok offset, c)) v = finish-Arenas k bytes offset copied c v

  -- A load of a cache whose arenas are valid, with its evictions and whether it returns or raises,
  -- leaves every arena valid.
  pub load-Arenas :
      (guarded : Bool) (copied : Result (Unit {0})) (k : Key) (bytes : ℕ) (c : Cache)
      (o : Outcome Entry)
      → Arenas c
      → load guarded copied k bytes c ≡ some o
      → Arenas o.1
  unfolding load
  load-Arenas guarded copied k bytes c o v h = read (by_guard guarded) h
    where
      by_guard : (g : Bool) → Left (load g copied k bytes c)
      by_guard false = v
      by_guard true =
          finish_all-Arenas k bytes copied _
            (make_room-Arenas (suc (length c.entries)) k.0 bytes c v)

      read : {x : Option (Outcome Entry)} → Left x → x ≡ some o → Arenas o.1
      read w e = subst Left e w
