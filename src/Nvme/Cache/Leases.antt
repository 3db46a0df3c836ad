-- ===== src/Nvme/Cache/Leases.antt =====
-- The entries that are leased and the count of resident bytes, under `_evict`, `_load` and `clear`
-- of experiments/dsv41_nvme/expert_cache.py.
use vllm_exl.Prelude.{
  ℕ, zero, suc, ◌+◌, ◌<◌, ◌≡◌, refl, ap, ◌∙◌, Bool, true, false, Option, none, some, List, [], ◌∷◌,
  ◌++◌, ltb, Result, ok, raise, cache_busy, length, arith, Bool-cases, Option-cases, Result-cases,
  inl, inr,
}
use vllm_exl.Nvme.Cache.Defs.{
  Key, key_eq, Entry, Cache, Outcome, region_at, find, delete, released, release_in, evict_entry,
  evict, candidate, Attempt, refused, granted, full, attempt_in, make_room, release_at, new_entry,
  finish, load, any_users, evict_all, clear,
}
use vllm_exl.Nvme.Cache.Entries.{
  leased, bytes_of, delete_lem, update_lem, find-delete, find-update, put_fresh,
}

-- the count of resident bytes is their sum
abbrev pub Accounted : Cache → Type 0
Accounted c = c.resident_bytes ≡ bytes_of c.entries

-- what every step of the cache keeps
pub record Keeps (c c' : Cache) : Type 0 where
  pub leases : leased c'.entries ≡ leased c.entries
  pub bytes : Accounted c → Accounted c'

Keeps-refl : (c : Cache) → Keeps c c
Keeps-refl c = record { leases = refl; bytes = λ h. h }

Keeps-trans : (c d e : Cache) → Keeps c d → Keeps d e → Keeps c e
Keeps-trans c d e h k = record { leases = k.leases ∙ h.leases; bytes = λ a. k.bytes (h.bytes a) }

-- `_evict` of any key
evict-Keeps :
    (k : Key) (c : Cache)
    → Keeps c (evict k c).1
      × ((u : Unit {0})
          → (evict k c).0 ≡ ok u
          → suc (length (evict k c).1.entries) ≡ length c.entries)
unfolding evict
evict-Keeps k c = elim (Option-cases (find k c.entries)) [
  | inl m ↦ rw (m, evict_entry) (Keeps-refl c, λ u h. absurd (ground arith))
  | inr (e, m) ↦ elim (Bool-cases (ltb 0 e.users)) [
    | inl t ↦ rw (m, evict_entry, t) (Keeps-refl c, λ u h. absurd (ground arith))
    | inr f ↦ elim (Result-cases (release_in e (region_at k.0 c.regions))) [
      | inr (x, n) ↦
          let (a, b) = update_lem k c.entries e m f in
          rw (m, evict_entry, f, n, released)
            (record { leases = a; bytes = λ h. omega (arith, h, b) }, λ u h. absurd (ground arith))
      | inl (r, n) ↦
          let (a, b, l) = delete_lem k c.entries e m f in
          rw (m, evict_entry, f, n, released)
            (record { leases = a; bytes = λ h. omega (arith, h, b) }, λ u h. l)
    ]
  ]
]

-- no eviction makes an entry
abbrev pub Absent : Cache → Cache → Type 0
Absent c c' = (j : Key) → find j c.entries ≡ none → find j c'.entries ≡ none

pub evict-Absent : (k : Key) (c : Cache) → Absent c (evict k c).1
unfolding evict
evict-Absent k c j h = elim (Option-cases (find k c.entries)) [
  | inl m ↦ rw (m, evict_entry) h
  | inr (e, m) ↦ elim (Bool-cases (ltb 0 e.users)) [
    | inl t ↦ rw (m, evict_entry, t) h
    | inr f ↦ elim (Result-cases (release_in e (region_at k.0 c.regions))) [
      | inr (x, n) ↦ rw (m, evict_entry, f, n, released) (find-update j k c.entries h)
      | inl (r, n) ↦ rw (m, evict_entry, f, n, released) (find-delete j k c.entries h)
    ]
  ]
]

abbrev Ends : Cache → Option (Outcome ℕ) → Type 0
Ends c o = (r : Outcome ℕ) × (o ≡ some r) × Keeps c r.1 × Absent c r.1

-- one round, where the next ones end for a cache with fewer entries
make_room_round :
    (fuel layer bytes : ℕ) (c : Cache)
    → ((d : Cache)
        → suc (length d.entries) ≡ length c.entries
        → Ends d (make_room fuel layer bytes d))
    → (a : Attempt) → attempt_in bytes (region_at layer c.regions) ≡ a
    → Ends c (make_room (suc fuel) layer bytes c)
unfolding make_room
make_room_round fuel layer bytes c next (refused e) m =
    rw (make_room, m) (_, refl, Keeps-refl c, λ j h. h)
make_room_round fuel layer bytes c next (granted o r) m =
    rw (make_room, m) (_, refl, record { leases = refl; bytes = λ h. h }, λ j h. h)
make_room_round fuel layer bytes c next full m = elim (Option-cases (candidate layer c.entries)) [
  | inl n ↦ rw (make_room, m, n) (_, refl, Keeps-refl c, λ j h. h)
  | inr (k, n) ↦ elim (Result-cases (evict k c).0) [
    | inr (e, x) ↦ rw (make_room, m, n, x) (_, refl, (evict-Keeps k c).0, evict-Absent k c)
    | inl (u, x) ↦
        let (keeps, shorter) = evict-Keeps k c in
        let (r, ran, kept, absent) = next (evict k c).1 (shorter u x) in
        rw (make_room, m, n, x, ran)
          (
            r,
            refl,
            Keeps-trans c (evict k c).1 r.1 keeps kept,
            λ j h. absent j (evict-Absent k c j h),
          )
  ]
]

-- the loop ends for fuel above the number of entries
make_room_lem :
    (fuel layer bytes : ℕ) (c : Cache)
    → length c.entries < fuel
    → Ends c (make_room fuel layer bytes c)
make_room_lem zero layer bytes c h = absurd (omega arith)
make_room_lem (suc fuel) layer bytes c h =
    make_room_round fuel layer bytes c (λ d e. make_room_lem fuel layer bytes d (omega arith))
      (attempt_in bytes (region_at layer c.regions)) refl

leased-append :
    (es : List Entry) (e : Entry) → ltb 0 e.users ≡ false → leased (es ++ e ∷ []) ≡ leased es
leased-append [] e h = rw h refl
leased-append (d ∷ es) e h = rw (leased-append es e h) refl

bytes-append : (es : List Entry) (e : Entry) → bytes_of (es ++ e ∷ []) ≡ bytes_of es + e.size
bytes-append [] e = omega arith
bytes-append (d ∷ es) e = omega (arith, bytes-append es e)

finish-Keeps :
    (k : Key) (bytes offset : ℕ) (copied : Result (Unit {0})) (c : Cache)
    → find k c.entries ≡ none
    → Keeps c (finish k bytes offset copied c).1
finish-Keeps k bytes offset (ok u) c h =
    rw (put_fresh (new_entry k bytes offset c) c.entries h) (record {
      leases = leased-append c.entries (new_entry k bytes offset c) refl;
      bytes = λ h. rw (bytes-append c.entries) (ap (λ n. n + bytes) h);
    })
finish-Keeps k bytes offset (raise e) c h =
    elim (Result-cases (release_at offset (region_at k.0 c.regions))) [
      | inl (r, m) ↦ rw m (record { leases = refl; bytes = λ h. h })
      | inr (x, m) ↦ rw m (Keeps-refl c)
    ]

-- A load of a key that has no entry ends whatever happens, and whether it returns or raises it leaves every leased entry as
-- it is, in place and in order, and the count of resident bytes right if it was right.
pub load-Keeps :
    (guarded : Bool) (copied : Result (Unit {0})) (k : Key) (bytes : ℕ) (c : Cache)
    → find k c.entries ≡ none
    → (o : Outcome Entry) × (load guarded copied k bytes c ≡ some o) × Keeps c o.1
unfolding load
load-Keeps false copied k bytes c h = (_, refl, Keeps-refl c)
load-Keeps true copied k bytes c h =
    let (r, ran, kept, absent) = make_room_lem (suc (length c.entries)) k.0 bytes c (omega arith) in
    elim (Result-cases r.0) [
      | inr (e, m) ↦
          let made : r ≡ (raise e, r.1) = ap (λ x. (x, r.1)) m in rw (ran, made) (_, refl, kept)
      | inl (offset, m) ↦
          let made : r ≡ (ok offset, r.1) = ap (λ x. (x, r.1)) m in
          rw (ran, made)
            (
              _,
              refl,
              Keeps-trans c r.1 _ kept (finish-Keeps k bytes offset copied r.1 (absent k h)),
            )
    ]

key_refl : (k : Key) → key_eq k k ≡ true
key_refl (a, b) = ground arith

-- the entry at the front is found and deleted
front :
    (e : Entry) (es : List Entry) → (find e.key (e ∷ es) ≡ some e) × (delete e.key (e ∷ es) ≡ es)
unfolding find delete
front e es = rw (key_refl e.key) (refl, refl)

evict-front :
    (c : Cache) (e : Entry) (es : List Entry) (u : Unit {0})
    → c.entries ≡ e ∷ es
    → (evict e.key c).0 ≡ ok u
    → (evict e.key c).1.entries ≡ es
unfolding evict
evict-front c e es u h k =
    let (found, deleted) = front e es in
    let m : find e.key c.entries ≡ some e = rw h found in
    elim (Bool-cases (ltb 0 e.users)) [
      | inl t ↦ absurd (ground arith)
      | inr f ↦ elim (Result-cases (release_in e (region_at e.key.0 c.regions))) [
        | inr (x, n) ↦ absurd (ground arith)
        | inl (r, n) ↦ rw (m, evict_entry, f, n, released, h) deleted
      ]
    ]

evict_all_lem :
    (es : List Entry) (c : Cache)
    → c.entries ≡ es
    → Keeps c (evict_all es c).1
      × ((u : Unit {0}) → (evict_all es c).0 ≡ ok u → (evict_all es c).1.entries ≡ [])
unfolding evict_all
evict_all_lem [] c h = (Keeps-refl c, λ u e. h)
evict_all_lem (e ∷ es) c h = elim (Result-cases (evict e.key c).0) [
  | inr (x, m) ↦ rw (evict_all, m) ((evict-Keeps e.key c).0, λ u k. absurd (ground arith))
  | inl (u, m) ↦
      let (kept, empty) = evict_all_lem es (evict e.key c).1 (evict-front c e es u h m) in
      rw (evict_all, m) (Keeps-trans c (evict e.key c).1 _ (evict-Keeps e.key c).0 kept, empty)
]

-- `clear` refuses while an entry is leased, and then changes nothing; where it succeeds the cache
-- is empty, and counts no resident bytes if the count was right.
pub clear_lem :
    (c : Cache)
    → (any_users c.entries ≡ true → clear c ≡ (raise cache_busy, c))
      × ((u : Unit {0})
          → (clear c).0 ≡ ok u
          → ((clear c).1.entries ≡ []) × (Accounted c → (clear c).1.resident_bytes ≡ 0))
unfolding clear
clear_lem c = elim (Bool-cases (any_users c.entries)) [
  | inl t ↦ rw t (λ h. refl, λ u h. absurd (ground arith))
  | inr f ↦
      let (kept, empty) = evict_all_lem c.entries c refl in
      rw f (
        λ h. absurd (ground arith),
        λ u h. (empty u h, λ a. kept.bytes a ∙ ap bytes_of (empty u h)),
      )
]
