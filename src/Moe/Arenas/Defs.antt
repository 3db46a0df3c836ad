-- ===== src/Moe/Arenas/Defs.antt =====
-- `prepare_trellis_arena_plan` of src/vllm_exl3/exl3.py for one of the projections: the experts
-- grouped by shape, one arena for each shape, and the slot of each expert. The dict of shapes is a
-- list with distinct keys, the expert ids. The tensors themselves are left out: an arena is its
-- shape, its experts and its bytes.
use vllm_exl.Prelude.{
  ℕ, suc, ◌+◌, ◌*◌, ◌==◌, Bool, true, false, ◌&&◌, Option, none, some, List, [], ◌∷◌, ◌++◌, ltb,
  leb, if◌then◌else◌, Result, ok, raise, runtime_error, length,
}
use vllm_exl.Prelude.Keys.{member}

abbrev pub Shape : Type 0
Shape = List ℕ

abbrev pub Shapes : Type 0
Shapes = List (ℕ × Shape)

unfoldable pub shape_eq : Shape → Shape → Bool
shape_eq [] [] = true
shape_eq [] (b ∷ bs) = false
shape_eq (a ∷ as_) [] = false
shape_eq (a ∷ as_) (b ∷ bs) = a == b && shape_eq as_ bs

-- `sorted(shapes.items())`
unfoldable pub insert : ℕ × Shape → Shapes → Shapes
insert e [] = e ∷ []
insert e (f ∷ es) = let rest = insert e es in if leb e.0 f.0 then e ∷ f ∷ es else f ∷ rest

unfoldable pub sort : Shapes → Shapes
unfolding insert
sort [] = []
sort (e ∷ es) = insert e (sort es)

-- the experts without the aliased ones
unfoldable pub resident : List ℕ → Shapes → Shapes
unfolding member
resident aliased [] = []
resident aliased (e ∷ es) =
    let rest = resident aliased es in if member e.0 aliased then rest else e ∷ rest

-- the experts of a shape, in order
abbrev pub Groups : Type 0
Groups = List (Shape × List ℕ)

-- `by_shape[shape].append(eid)`
unfoldable pub add : ℕ → Shape → Groups → Groups
unfolding shape_eq
add k s [] = (s, k ∷ []) ∷ []
add k s ((t, ks) ∷ gs) =
    let rest = add k s gs in if shape_eq s t then (t, ks ++ k ∷ []) ∷ gs else (t, ks) ∷ rest

unfoldable pub group_from : Groups → Shapes → Groups
unfolding add
group_from gs [] = gs
group_from gs ((k, s) ∷ es) = group_from (add k s gs) es

unfoldable pub by_shape : List ℕ → Shapes → Groups
unfolding resident group_from sort
by_shape aliased shapes = group_from [] (resident aliased (sort shapes))

-- the slot of an expert: the shape of its arena, and its place there
abbrev pub Slot : Type 0
Slot = Shape × ℕ

-- `eid_index[proj][eid] = (shape, i)` for the experts of an arena, from the slot `i` on; an expert
-- out of range raises
unfoldable pub index_arena : ℕ → Shape → ℕ → List ℕ → Result (List (ℕ × Slot))
index_arena n_experts s i [] = ok []
index_arena n_experts s i (k ∷ ks) =
    let rest = index_arena n_experts s (suc i) ks in
    if ltb k n_experts
    then elim rest [ raise e ↦ raise e | ok xs ↦ ok ((k, (s, i)) ∷ xs) ]
    else raise runtime_error

unfoldable pub index_all : ℕ → Groups → Result (List (ℕ × Slot))
unfolding index_arena
index_all n_experts [] = ok []
index_all n_experts ((s, ks) ∷ gs) =
    let first = index_arena n_experts s 0 ks in
    let rest = index_all n_experts gs in
    elim first [
      | raise e ↦ raise e
      | ok xs ↦ elim rest [ raise e ↦ raise e | ok ys ↦ ok (xs ++ ys) ]
    ]

unfoldable pub prod : List ℕ → ℕ
prod [] = 1
prod (n ∷ ns) = n * prod ns

-- `arena.nbytes` of int16
abbrev pub arena_bytes : Shape × List ℕ → ℕ
arena_bytes (s, ks) = length ks * prod s * 2

unfoldable pub final_bytes : Groups → ℕ
unfolding prod
final_bytes [] = 0
final_bytes (g ∷ gs) = arena_bytes g + final_bytes gs

pub record Plan : Type 0 where
  pub arenas : Groups
  pub eid_index : List (ℕ × Slot)
  pub bytes : ℕ

abbrev pub planned : Groups → Result (List (ℕ × Slot)) → Result Plan
planned gs (raise e) = raise e
planned gs (ok index) = ok (record { arenas = gs; eid_index = index; bytes = final_bytes gs })

unfoldable pub prepare_trellis_arena_plan : ℕ → List ℕ → Shapes → Result Plan
unfolding by_shape index_all final_bytes
prepare_trellis_arena_plan n_experts aliased shapes =
    let groups = by_shape aliased shapes in planned groups (index_all n_experts groups)

-- `eid_index[proj][eid]`
unfoldable pub slot_of : ℕ → List (ℕ × Slot) → Option Slot
slot_of k [] = none
slot_of k ((j, s) ∷ xs) = if k == j then some s else slot_of k xs
