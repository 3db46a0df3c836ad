-- ===== src/Nvme/Regions/Tests.antt =====
-- Runs of `Regions`, and its theorems at a concrete arena.
use vllm_exl.Prelude.{
  ℕ, ◌+◌, ◌%◌, ◌≤◌, ◌<◌, ◌≡◌, refl, [], ◌∷◌, some, none, arith, ok, raise, key_error,
}
use vllm_exl.Nvme.Regions.Defs.{
  Regions, align, aligned, init, cut, first_fit, insert, pop, granted, allocate, insert_sorted,
  pair_leb, sort, coalesce_from, coalesce, returned, release,
}
use vllm_exl.Nvme.Regions.Cover.{cover}
use vllm_exl.Nvme.Regions.Validity.{IsValid, allocate-IsValid, release-IsValid}
use vllm_exl.Nvme.Regions.Laws.{init-IsValid, allocate_block, release-allocate, allocate_drained}

program : Unit {0}
unfolding aligned init cut first_fit insert pop granted allocate insert_sorted pair_leb sort
    coalesce_from coalesce returned release
program = tt

-- four pages at 4096
abbrev fresh : Regions
fresh = record { free = (4096, 16384) ∷ []; allocated = [] }

abbrev one : Regions
one = record { free = (12288, 8192) ∷ []; allocated = (4096, 8192) ∷ [] }

init_run : init 16384 4096 ≡ ok fresh
unfolding program
init_run = refl

allocate_run : allocate 5000 fresh ≡ ok (some 4096, one)
unfolding program
allocate_run = refl

allocate_too_long : allocate 9000 one ≡ ok (none, one)
unfolding program
allocate_too_long = refl

release_run : release 4096 one ≡ ok fresh
unfolding program
release_run = refl

release_unknown : release 0 one ≡ raise key_error
unfolding program
release_unknown = refl

init-IsValid_example : IsValid 4096 16384 fresh
init-IsValid_example = init-IsValid 16384 4096 fresh init_run

allocate-IsValid_example : IsValid 4096 16384 one
allocate-IsValid_example = allocate-IsValid init-IsValid_example 5000 (some 4096) one allocate_run

release-IsValid_example : IsValid 4096 16384 fresh
release-IsValid_example = release-IsValid allocate-IsValid_example 4096 fresh release_run

allocate_block_example :
    (4096 % align ≡ 0)
    × ((a : ℕ)
        → 4096 ≤ a
        → a < 4096 + 5000
        → (cover a fresh.allocated ≡ 0) × (4096 ≤ a) × (a < 4096 + 16384))
allocate_block_example = allocate_block init-IsValid_example 5000 4096 one allocate_run

release-allocate_example : release 4096 one ≡ ok fresh
release-allocate_example = release-allocate init-IsValid_example 5000 4096 one allocate_run

allocate_drained_example :
    (fresh.free ≡ (4096, 16384) ∷ []) × (r' : Regions) × (allocate 16384 fresh ≡ ok (some 4096, r'))
unfolding aligned
allocate_drained_example =
    allocate_drained init-IsValid_example 16384 (omega arith) (omega arith) refl
