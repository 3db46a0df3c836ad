-- ===== src/Nvme/Cache/Tests.antt =====
-- A layer of two pages with experts of one page each, and the theorems at it.
use vllm_exl.Prelude.{
  sym, ◌==◌, Bool-cases, inl, inr, arith, ℕ, ◌≡◌, refl, true, false, some, [], ◌∷◌, ok, raise,
  cache_busy, interrupted, value_error, none, ◌*◌, ◌^◌,
}
use vllm_exl.Nvme.Regions.Defs.{
  Regions, aligned, cut, first_fit, insert, pop, granted, allocate, insert_sorted, pair_leb, sort,
  coalesce_from, coalesce, returned, release,
}
use vllm_exl.Nvme.Cache.Defs.{
  Entry, Cache, Outcome, find, delete, put, update, evict, candidate, make_room, load, lease,
  end_lease, any_users, evict_all, clear, close,
}
use vllm_exl.Nvme.Regions.Defs.{init}
use vllm_exl.Nvme.Regions.Laws.{init-IsValid}
use vllm_exl.Nvme.Cache.Arena.{Arenas}
use vllm_exl.Nvme.Cache.Blocks.{Owned}
use vllm_exl.Nvme.Cache.Owned.{load-Owned}
use vllm_exl.Prelude.Keys.{member, distinct}
use vllm_exl.Nvme.Cache.Opening.{
  HostMemory, Records, Quotas, layers_of, chosen_quotas, subset, largest, open_regions, too_small,
  open_cache,
}
use vllm_exl.Nvme.Cache.Partition.{Laid, open_cache-Laid}
use vllm_exl.Nvme.Cache.Stocked.{open_cache-loads}
use vllm_exl.Nvme.Cache.Leases.{Accounted, Keeps, load-Keeps, clear_lem}

program : Unit {0}
unfolding init aligned cut first_fit insert pop granted allocate insert_sorted pair_leb sort
    coalesce_from coalesce returned release find delete put update evict candidate make_room load
    lease end_lease any_users evict_all clear close
program = tt

-- expert 5 of layer 3 is leased, expert 6 is not
abbrev both : Cache
both = record {
  regions = (3, record { free = []; allocated = (0, 4096) ∷ (4096, 4096) ∷ [] }) ∷ [];
  entries =
      record { key = (3, 5); offset = 0; size = 4000; generation = 1; users = 1; events = [] }
      ∷ record {
        key = (3, 6);
        offset = 4096;
        size = 4000;
        generation = 2;
        users = 0;
        events = 7 ∷ [];
      }
      ∷ [];
  generation = 2;
  hits = 0;
  misses = 2;
  evictions = 0;
  failures = 0;
  peak_resident_bytes = 8000;
  resident_bytes = 8000;
  closed = false;
}

-- expert 7 takes the place of expert 6
replaced :
    lease true (ok tt) (λ e. true) false (3, 7) (some 4096) both
    ≡ some (
      ok tt,
      record both {
        entries =
            record { key = (3, 5); offset = 0; size = 4000; generation = 1; users = 1; events = [] }
            ∷ record {
              key = (3, 7);
              offset = 4096;
              size = 4096;
              generation = 3;
              users = 1;
              events = [];
            }
            ∷ [];
        regions = (3, record { free = []; allocated = (0, 4096) ∷ (4096, 4096) ∷ [] }) ∷ [];
        generation = 3;
        misses = 3;
        evictions = 1;
        peak_resident_bytes = 8096;
        resident_bytes = 8096;
      },
    )
unfolding program
replaced = refl

-- two pages for one expert do not come free while one is leased
busy :
    ((o : Outcome Entry) × (load true (ok tt) (3, 8) 8192 both ≡ some o) × (o.0 ≡ raise cache_busy))
unfolding program
busy = (_, refl, refl)

leased_clear : clear both ≡ (raise cache_busy, both)
unfolding program
leased_clear = refl

load-Keeps_example :
    (o : Outcome Entry) × (load true (raise interrupted) (3, 7) 4096 both ≡ some o) × Keeps both o.1
unfolding program
load-Keeps_example = load-Keeps true (raise interrupted) (3, 7) 4096 both refl

clear_lem_example :
    (any_users both.entries ≡ true → clear both ≡ (raise cache_busy, both))
    × ((u : Unit {0})
        → (clear both).0 ≡ ok u
        → ((clear both).1.entries ≡ []) × (Accounted both → (clear both).1.resident_bytes ≡ 0))
clear_lem_example = clear_lem both

abbrev two_pages : Regions
two_pages = record { free = (0, 8192) ∷ []; allocated = [] }

abbrev unused : Cache
unused = record both { regions = (3, two_pages) ∷ []; entries = []; resident_bytes = 0 }

abbrev loaded : Entry
loaded = record { key = (3, 5); offset = 0; size = 4000; generation = 3; users = 0; events = [] }

abbrev after : Cache
after = record unused {
  regions = (3, record { free = (4096, 4096) ∷ []; allocated = (0, 4096) ∷ [] }) ∷ [];
  entries = loaded ∷ [];
  generation = 3;
  resident_bytes = 4000;
}

first_load : load true (ok tt) (3, 5) 4000 unused ≡ some (ok loaded, after)
unfolding program
first_load = refl

made : init 8192 0 ≡ ok two_pages
unfolding program
made = refl

abbrev extent : ℕ → ℕ × ℕ
extent layer = (0, 8192)

unused-Owned : Owned unused
unused-Owned layer o r at = elim (Bool-cases (layer == 3)) [
  | inl t ↦ let same : two_pages ≡ r = ground arith in rw (sym same) refl
  | inr f ↦ absurd (ground arith)
]

load-Owned_example : Arenas extent after × Owned after
unfolding program
load-Owned_example =
    load-Owned extent (3, 5) true (ok tt) 4000 unused (ok loaded, after)
      (init-IsValid 8192 0 two_pages made, tt) unused-Owned refl first_load

abbrev idle : HostMemory
idle = record { mem_available = 8 * 2 ^ 30; swap_total = 4096; swap_free = 4096 }

-- two layers, in the order of the index
abbrev two_layers : Records
two_layers = ((4, 1), 8000) ∷ ((3, 5), 4000) ∷ ((3, 6), 4096) ∷ []

abbrev two_quotas : Quotas
two_quotas = (4, 8192) ∷ (3, 4096) ∷ []

abbrev opened : Cache
opened = record both {
  regions =
      (3, record { free = (0, 4096) ∷ []; allocated = [] })
      ∷ (4, record { free = (4096, 8192) ∷ []; allocated = [] })
      ∷ [];
  entries = [];
  generation = 0;
  misses = 0;
  peak_resident_bytes = 0;
  resident_bytes = 0;
}

opening : Unit {0}
unfolding member distinct subset largest open_regions open_cache sort insert_sorted pair_leb init
opening = tt

opens : open_cache idle two_layers 12288 (some two_quotas) 4096 ≡ ok opened
unfolding opening
opens = refl

-- without quotas the store may have one layer only
needs_quotas : open_cache idle two_layers 12288 none 4096 ≡ raise value_error
unfolding opening
needs_quotas = refl

-- the expert of layer 4 does not fit
too_wide :
    open_cache idle two_layers 12288 (some ((4, 4096) ∷ (3, 8192) ∷ [])) 4096 ≡ raise value_error
unfolding opening
too_wide = refl

open_cache-Laid_example :
    (too_small idle 12288 4096 ≡ false)
    × Accounted opened
    × ((qs : Quotas) × (chosen_quotas 12288 (layers_of two_layers) (some two_quotas) ≡ ok qs)
        × Laid two_layers 12288 0 (sort qs) opened.regions)
open_cache-Laid_example = open_cache-Laid idle two_layers 12288 (some two_quotas) 4096 opened opens

open_cache-loads_example :
    (e : Entry) × (c : Cache) × (load true (ok tt) (3, 6) 4096 opened ≡ some (ok e, c))
    × (e.key ≡ (3, 6))
    × (e.size ≡ 4096)
open_cache-loads_example =
    open_cache-loads idle two_layers 12288 (some two_quotas) 4096 opened (3, 6) 4096 opens
      (inr (inr (inl (refl, refl)))) (omega arith)
