-- ===== src/Nvme/Cache/Opening.antt =====
-- `host_memory` and `ExpertCache.__init__` of experiments/dsv41_nvme/expert_cache.py. The store is
-- the list of its records, by key and bytes, the quotas are the items of a dict, and a quota is a
-- natural. What `host_memory` reads is an argument.
use vllm_exl.Prelude.{
  ℕ, ◌+◌, ◌*◌, ◌%◌, max, ◌==◌, Bool, true, false, ◌&&◌, ◌||◌, not, Option, none, some, List, [],
  ◌∷◌, ltb, if◌then◌else◌, Result, ok, raise, value_error, runtime_error, raise_if, ◌>>◌, ◌>>=◌,
  map, sum, ◌^◌,
}
use vllm_exl.Prelude.Keys.{member, distinct}
use vllm_exl.Nvme.Regions.Defs.{Regions, align, init, sort}
use vllm_exl.Nvme.Cache.Defs.{Key, Cache}

-- the fields of /proc/meminfo, in bytes
pub record HostMemory : Type 0 where
  pub mem_available : ℕ
  pub swap_total : ℕ
  pub swap_free : ℕ

-- `store.records`, with the size of each record
abbrev pub Records : Type 0
Records = List (Key × ℕ)

-- the items of `layer_quotas`: layer and bytes
abbrev pub Quotas : Type 0
Quotas = List (ℕ × ℕ)

-- the layers of the records; no operation depends on their order
abbrev pub layers_of : Records → List ℕ
layers_of records = distinct [] (map (λ r. r.0.0) records)

-- `layer_quotas`, where one was given and where none was
abbrev pub chosen_quotas : ℕ → List ℕ → Option Quotas → Result Quotas
chosen_quotas capacity layers (some quotas) = ok quotas
chosen_quotas capacity (layer ∷ []) none = ok ((layer, capacity) ∷ [])
chosen_quotas capacity layers none = raise value_error

-- each key of the first list is in the second
unfoldable pub subset : List ℕ → List ℕ → Bool
subset [] js = true
subset (i ∷ is) js = member i js && subset is js

abbrev pub same_set : List ℕ → List ℕ → Bool
same_set is js = subset is js && subset js is

abbrev pub widest : ℕ → Option ℕ → Option ℕ
widest bytes none = some bytes
widest bytes (some n) = some (max bytes n)

-- `max(...)` over the records of a layer; `max` of nothing raises
unfoldable pub largest : ℕ → Records → Option ℕ
largest layer [] = none
largest layer ((k, bytes) ∷ records) =
    let rest = largest layer records in if k.0 == layer then widest bytes rest else rest

abbrev pub check_largest : ℕ → Option ℕ → Result (Unit {0})
check_largest size none = raise value_error
check_largest size (some n) = raise_if (ltb size n) value_error

-- the loop over the sorted quotas
unfoldable pub open_regions : Records → ℕ → Quotas → Result (List (ℕ × Regions))
open_regions records base [] = ok []
open_regions records base ((layer, size) ∷ quotas) = init size base >>= λ r.
    check_largest size (largest layer records)
    >> (open_regions records (base + size) quotas >>= λ rs. ok ((layer, r) ∷ rs))

-- a cache with its arenas and nothing in them
abbrev pub empty_cache : List (ℕ × Regions) → Cache
empty_cache rs = record {
  regions = rs;
  entries = [];
  generation = 0;
  hits = 0;
  misses = 0;
  evictions = 0;
  failures = 0;
  peak_resident_bytes = 0;
  resident_bytes = 0;
  closed = false;
}

-- the test of `host_memory()` before anything is allocated
abbrev pub too_small : HostMemory → ℕ → ℕ → Bool
too_small m capacity reserve =
    not (m.swap_total == m.swap_free) || ltb m.mem_available (capacity + reserve + 2 * 2 ^ 30)

abbrev pub not_partition : ℕ → List ℕ → Quotas → Bool
not_partition capacity layers quotas =
    not (same_set (map (λ q. q.0) quotas) layers) || not (sum (map (λ q. q.1) quotas) == capacity)

-- `ExpertCache.__init__`
unfoldable pub open_cache : HostMemory → Records → ℕ → Option Quotas → ℕ → Result Cache
open_cache m records capacity layer_quotas reserve =
    raise_if (capacity == 0 || not (capacity % align == 0)) value_error
    >> (raise_if (too_small m capacity reserve) runtime_error
        >> (chosen_quotas capacity (layers_of records) layer_quotas >>= λ quotas.
            raise_if (not_partition capacity (layers_of records) quotas) value_error
            >> (open_regions records 0 (sort quotas) >>= λ rs. ok (empty_cache rs))))
