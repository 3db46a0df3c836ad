-- ===== src/Moe/Tests.antt =====
-- Three experts of a rank, one of another shape and one aliased, and the theorems at them.
use vllm_exl.Prelude.{
  ℕ, ◌≡◌, ◌≤◌, refl, ℤ, pos, negsuc, true, false, none, some, List, [], ◌∷◌, map, ok, raise,
  runtime_error,
}
use vllm_exl.Prelude.Keys.{member}
use vllm_exl.Moe.Arenas.Defs.{
  Shapes, Slot, Plan, shape_eq, insert, sort, resident, add, group_from, by_shape, index_arena,
  index_all, prod, final_bytes, prepare_trellis_arena_plan, slot_of,
}
use vllm_exl.Moe.Arenas.Slots.{expert_in}
use vllm_exl.Moe.Arenas.Members.{ids}
use vllm_exl.Moe.Arenas.Complete.{prepare_trellis_arena_plan_lem}
use vllm_exl.Moe.Routing.{map_topk_to_local, local_expert, local_of, or_else, map_topk_to_local_lem}

program : Unit {0}
unfolding member shape_eq insert sort resident add group_from by_shape index_arena index_all prod
    final_bytes prepare_trellis_arena_plan slot_of expert_in map_topk_to_local
program = tt

abbrev shapes : Shapes
shapes = (2, 1 ∷ 32 ∷ []) ∷ (0, 1 ∷ 48 ∷ []) ∷ (3, 1 ∷ 32 ∷ []) ∷ (1, 1 ∷ 32 ∷ []) ∷ []

abbrev plan : Plan
plan = record {
  arenas = (1 ∷ 48 ∷ [], 0 ∷ []) ∷ (1 ∷ 32 ∷ [], 1 ∷ 2 ∷ []) ∷ [];
  eid_index = (0, (1 ∷ 48 ∷ [], 0)) ∷ (1, (1 ∷ 32 ∷ [], 0)) ∷ (2, (1 ∷ 32 ∷ [], 1)) ∷ [];
  bytes = 224;
}

planned : prepare_trellis_arena_plan 4 (3 ∷ []) shapes ≡ ok plan
unfolding program
planned = refl

beyond : prepare_trellis_arena_plan 2 (3 ∷ []) shapes ≡ raise runtime_error
unfolding program
beyond = refl

prepare_trellis_arena_plan_lem_example :
    ((k : ℕ)
      → member k (ids shapes) ≡ true
      → member k (3 ∷ []) ≡ false
      → (x : Slot) × (slot_of k plan.eid_index ≡ some x))
    × ((k : ℕ) (x : Slot)
        → slot_of k plan.eid_index ≡ some x
        → (member k (ids shapes) ≡ true)
          × (member k (3 ∷ []) ≡ false)
          × (expert_in x plan.arenas ≡ some k))
prepare_trellis_arena_plan_lem_example =
    prepare_trellis_arena_plan_lem 4 (3 ∷ []) shapes plan planned

-- experts 2 and 3 are local experts 0 and 1
abbrev emap : List ℤ
emap = negsuc 0 ∷ negsuc 0 ∷ pos 0 ∷ pos 1 ∷ []

abbrev chosen : List ℤ
chosen = pos 3 ∷ pos 0 ∷ pos 9 ∷ negsuc 0 ∷ pos 2 ∷ []

routed :
    map_topk_to_local chosen 2 true (some emap) ≡ ok (pos 1 ∷ pos 2 ∷ pos 2 ∷ pos 2 ∷ pos 0 ∷ [])
unfolding program
routed = refl

map_topk_to_local_lem_example :
    (map_topk_to_local chosen 2 true (some emap)
      ≡ ok (map (λ id. pos (or_else 2 (local_expert 2 emap id))) chosen))
    × ((id : ℤ) → or_else 2 (local_expert 2 emap id) ≤ 2)
    × (map_topk_to_local chosen 2 true none
        ≡ ok (map (λ id. pos (or_else 2 (local_of 2 id))) chosen))
    × (map_topk_to_local chosen 2 false (some emap) ≡ raise runtime_error)
map_topk_to_local_lem_example = map_topk_to_local_lem chosen 2 true emap
