-- ===== src/Nvme/Cache/Defs.antt =====
-- `class ExpertCache` of experiments/dsv41_nvme/expert_cache.py: `_evict`, `_load`, the two halves
-- of `lease`, `clear` and `close`. A key `layer:expert` is a pair. An operation returns what it
-- returns or raises, and the cache that it leaves. The answer of `_guard`, the outcome of the copy
-- from the store and the CUDA events are arguments; an event is a number, and synchronising on it
-- and dropping the projections change nothing that is modelled.
use vllm_exl.Prelude.{
  ℕ, zero, suc, ◌+◌, ◌-◌, max, ◌==◌, Bool, true, false, ◌&&◌, ◌||◌, Option, none, some, List, [],
  ◌∷◌, ◌++◌, ltb, if◌then◌else◌, Result, ok, raise, Error, runtime_error, key_error, cache_busy,
  interrupted, length,
}
use vllm_exl.Nvme.Regions.Defs.{Regions, allocate, release}

abbrev pub Key : Type 0
Key = ℕ × ℕ

abbrev pub key_eq : Key → Key → Bool
key_eq (a, b) (c, d) = a == c && b == d

pub record Entry : Type 0 where
  pub key : Key
  pub offset : ℕ
  pub size : ℕ
  pub generation : ℕ
  pub users : ℕ
  pub events : List ℕ

pub record Cache : Type 0 where
  -- the arena of each layer
  pub regions : List (ℕ × Regions)
  -- the ordered dict, by the keys of the entries
  pub entries : List Entry
  pub generation : ℕ
  pub hits : ℕ
  pub misses : ℕ
  pub evictions : ℕ
  pub failures : ℕ
  pub peak_resident_bytes : ℕ
  pub resident_bytes : ℕ
  pub closed : Bool

-- what an operation returns or raises, and the cache that it leaves
abbrev pub Outcome : Type 0 → Type 0
Outcome A = Result A × Cache

abbrev pub region_at : ℕ → List (ℕ × Regions) → Option Regions
region_at layer [] = none
region_at layer ((l, r) ∷ rs) = if layer == l then some r else region_at layer rs

abbrev pub set_region : ℕ → Regions → List (ℕ × Regions) → List (ℕ × Regions)
set_region layer r' [] = []
set_region layer r' ((l, r) ∷ rs) =
    if layer == l then (l, r') ∷ rs else (l, r) ∷ set_region layer r' rs

-- `entries.get(key)`
unfoldable pub find : Key → List Entry → Option Entry
find k [] = none
find k (e ∷ es) = if key_eq k e.key then some e else find k es

-- `del entries[key]`
unfoldable pub delete : Key → List Entry → List Entry
delete k [] = []
delete k (e ∷ es) = if key_eq k e.key then es else e ∷ delete k es

-- `entries[key] = entry`: in the place of the entry of the key, or at the end
unfoldable pub put : Entry → List Entry → List Entry
put e [] = e ∷ []
put e (d ∷ es) = if key_eq e.key d.key then e ∷ es else d ∷ put e es

-- an entry that is changed where it stands
unfoldable pub update : Key → (Entry → Entry) → List Entry → List Entry
update k f [] = []
update k f (e ∷ es) = if key_eq k e.key then f e ∷ es else e ∷ update k f es

abbrev pub cleared : Entry → Entry
cleared e = record e { events = [] }

-- the end of `_evict`, after the release of the block
abbrev pub released : Key → Entry → Cache → Result Regions → Outcome (Unit {0})
released k e c (raise x) = (raise x, record c { entries = update k cleared c.entries })
released k e c (ok r) = (
  ok tt,
  record c {
    regions = set_region k.0 r c.regions;
    entries = delete k c.entries;
    resident_bytes = c.resident_bytes - e.size;
    evictions = c.evictions + 1;
  },
)

abbrev pub release_in : Entry → Option Regions → Result Regions
release_in e none = raise key_error
release_in e (some r) = release e.offset r

abbrev pub evict_entry : Key → Cache → Option Entry → Outcome (Unit {0})
evict_entry k c none = (raise key_error, c)
evict_entry k c (some e) =
    if ltb 0 e.users
    then (raise cache_busy, c)
    else released k e c (release_in e (region_at k.0 c.regions))

-- `_evict`
unfoldable pub evict : Key → Cache → Outcome (Unit {0})
evict k c = evict_entry k c (find k c.entries)

-- the first entry of a layer without users
unfoldable pub candidate : ℕ → List Entry → Option Key
candidate layer [] = none
candidate layer (e ∷ es) =
    if e.key.0 == layer && e.users == 0 then some e.key else candidate layer es

-- an attempt to allocate: it raised, it was granted, or no block is long enough
pub data Attempt : Type 0 where
  refused : Error → Attempt
  granted : ℕ → Regions → Attempt
  full : Attempt

abbrev pub attempt_of : Result (Option ℕ × Regions) → Attempt
attempt_of (raise e) = refused e
attempt_of (ok (none, r)) = full
attempt_of (ok (some o, r)) = granted o r

abbrev pub attempt_in : ℕ → Option Regions → Attempt
attempt_in bytes none = refused key_error
attempt_in bytes (some r) = attempt_of (allocate bytes r)

-- the allocation of `_load` with its loop of evictions; `none` where the fuel runs out
unfoldable pub make_room : ℕ → ℕ → ℕ → Cache → Option (Outcome ℕ)
make_room zero layer bytes c = none
make_room (suc fuel) layer bytes c = elim (attempt_in bytes (region_at layer c.regions)) [
  | refused e ↦ some (raise e, c)
  | granted o r ↦ some (ok o, record c { regions = set_region layer r c.regions })
  | full ↦ elim (candidate layer c.entries) [
    | none ↦ some (raise cache_busy, c)
    | some k ↦
        let evicted = evict k c in
        elim evicted.0 [
          | raise e ↦ some (raise e, evicted.1)
          | ok u ↦ make_room fuel layer bytes evicted.1
        ]
  ]
]

-- the `except` of `_load`: the block goes back, unless the release raises
abbrev pub undo : Error → ℕ → ℕ → Cache → Result Regions → Outcome Entry
undo e layer offset c (ok r) =
    (raise e, record c { regions = set_region layer r c.regions; failures = c.failures + 1 })
undo e layer offset c (raise x) = (raise x, c)

abbrev pub release_at : ℕ → Option Regions → Result Regions
release_at offset none = raise key_error
release_at offset (some r) = release offset r

-- `Entry(key,offset,record['bytes'],self.generation,projections)`, after the generation moved on
abbrev pub new_entry : Key → ℕ → ℕ → Cache → Entry
new_entry k bytes offset c = record {
  key = k;
  offset = offset;
  size = bytes;
  generation = c.generation + 1;
  users = 0;
  events = [];
}

-- the `try` of `_load`, from the outcome of the copy and of the tests of what was read
abbrev pub finish : Key → ℕ → ℕ → Result (Unit {0}) → Cache → Outcome Entry
finish k bytes offset (raise e) c =
    undo e k.0 offset c (release_at offset (region_at k.0 c.regions))
finish k bytes offset (ok u) c =
    let entry = new_entry k bytes offset c in
    (
      ok entry,
      record c {
        generation = c.generation + 1;
        entries = put entry c.entries;
        resident_bytes = c.resident_bytes + bytes;
        peak_resident_bytes = max c.peak_resident_bytes (c.resident_bytes + bytes);
      },
    )

abbrev pub finish_all : Key → ℕ → Result (Unit {0}) → Option (Outcome ℕ) → Option (Outcome Entry)
finish_all k bytes copied none = none
finish_all k bytes copied (some (raise e, c)) = some (raise e, c)
finish_all k bytes copied (some (ok offset, c)) = some (finish k bytes offset copied c)

-- `_load` of a key whose record has `bytes` bytes; `guarded` is whether `_guard` passes
unfoldable pub load : Bool → Result (Unit {0}) → Key → ℕ → Cache → Option (Outcome Entry)
unfolding make_room
load guarded copied k bytes c =
    if guarded
    then finish_all k bytes copied (make_room (suc (length c.entries)) k.0 bytes c)
    else some (raise runtime_error, c)

abbrev pub with_user : Entry → Entry
with_user e = record e { users = e.users + 1 }

-- the end of the acquisition: `users += 1`
abbrev pub acquired : Key → Option (Outcome Entry) → Option (Outcome (Unit {0}))
acquired k none = none
acquired k (some (raise e, c)) = some (raise e, c)
acquired k (some (ok entry, c)) = some (ok tt, record c { entries = update k with_user c.entries })

-- `[e for e in entry.events if not e.query()]`
abbrev pub pending : (ℕ → Bool) → List ℕ → List ℕ
pending done [] = []
pending done (e ∷ es) = if done e then pending done es else e ∷ pending done es

-- a hit: the events that are done are dropped, and the entry moves to the end
abbrev pub hit : (ℕ → Bool) → Key → Entry → Cache → Cache
hit done k e c = record c {
  hits = c.hits + 1;
  entries = delete k c.entries ++ record e { events = pending done e.events } ∷ [];
}

abbrev pub hit_or_load :
    Bool → Result (Unit {0}) → (ℕ → Bool) → Key → ℕ → Cache → Option Entry → Option (Outcome Entry)
hit_or_load guarded copied done k bytes c none =
    load guarded copied k bytes (record c { misses = c.misses + 1 })
hit_or_load guarded copied done k bytes c (some e) = some (ok e, hit done k e c)

-- the first half of `lease`; `bytes` is `none` for a key that is not in the store
unfoldable pub lease :
    Bool
    → Result (Unit {0})
    → (ℕ → Bool)
    → Bool
    → Key
    → Option ℕ
    → Cache
    → Option (Outcome (Unit {0}))
lease guarded copied done cancelled k none c =
    if c.closed then some (raise runtime_error, c) else some (raise key_error, c)
lease guarded copied done cancelled k (some bytes) c =
    if c.closed
    then some (raise runtime_error, c)
    else if cancelled
    then some (raise interrupted, c)
    else acquired k (hit_or_load guarded copied done k bytes c (find k c.entries))

abbrev pub without_user : ℕ → Entry → Entry
without_user event e = record e { users = e.users - 1; events = e.events ++ event ∷ [] }

-- the `finally` of `lease`: the entry that was leased stands in the cache while it has a user
unfoldable pub end_lease : ℕ → Key → Cache → Cache
end_lease event k c = record c { entries = update k (without_user event) c.entries }

unfoldable pub any_users : List Entry → Bool
any_users [] = false
any_users (e ∷ es) = ltb 0 e.users || any_users es

-- the loop of `clear` over the keys
unfoldable pub evict_all : List Entry → Cache → Outcome (Unit {0})
unfolding evict
evict_all [] c = (ok tt, c)
evict_all (e ∷ es) c =
    let evicted = evict e.key c in
    elim evicted.0 [ raise x ↦ (raise x, evicted.1) | ok u ↦ evict_all es evicted.1 ]

unfoldable pub clear : Cache → Outcome (Unit {0})
unfolding any_users evict_all
clear c = if any_users c.entries then (raise cache_busy, c) else evict_all c.entries c

abbrev pub closed_after : Outcome (Unit {0}) → Outcome (Unit {0})
closed_after (raise e, c) = (raise e, c)
closed_after (ok u, c) = (ok tt, record c { closed = true })

unfoldable pub close : Cache → Outcome (Unit {0})
unfolding clear
close c = closed_after (clear c)
