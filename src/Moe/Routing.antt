-- ===== src/Moe/Routing.antt =====
-- `map_topk_to_local` of src/vllm_exl3/exl3.py. The ids of a tensor are a flat list; the pinned
-- state of the expert map is a Boolean, and the map is the list of local ids, negative for an expert
-- of another rank.
use vllm_exl.Prelude.{
  ℕ, zero, suc, ◌-◌, ◌<◌, ◌≤◌, ◌≡◌, refl, ap, ℤ, pos, negsuc, Bool, true, false, ◌||◌, not, Option,
  none, some, List, [], ◌∷◌, map, min, ltb, leb, if◌then◌else◌, Result, ok, raise, runtime_error,
  length, get_elem?, arith, leb→le, Bool-cases, inl, inr,
}

-- `flat.clamp(min=0, max=most)`
abbrev pub clamped : ℕ → ℤ → ℕ
clamped most (pos n) = min n most
clamped most (negsuc n) = 0

abbrev or_sentinel : ℕ → Option ℤ → ℤ
or_sentinel n_local none = pos n_local
or_sentinel n_local (some z) = z

-- `expert_map[safe]`, or the sentinel of an empty map
abbrev pub mapped : ℕ → List ℤ → ℕ → ℤ
mapped n_local [] safe = pos n_local
mapped n_local (z ∷ zs) safe = or_sentinel n_local (get_elem? (z ∷ zs) safe)

-- `z < 0 or z >= n`
abbrev pub outside : ℕ → ℤ → Bool
outside n (pos k) = leb n k
outside n (negsuc k) = true

-- `where(invalid, n_local, z)`
abbrev pub where_valid : ℕ → Bool → ℤ → ℤ
where_valid n_local true z = pos n_local
where_valid n_local false z = z

abbrev pub map_id : ℕ → List ℤ → ℤ → ℤ
map_id n_local emap id =
    let n_global = length emap in
    let z = mapped n_local emap (clamped (n_global - 1) id) in
    where_valid n_local (outside n_global id || outside n_local z) z

unfoldable pub map_topk_to_local : List ℤ → ℕ → Bool → Option (List ℤ) → Result (List ℤ)
map_topk_to_local ids n_local pinned none =
    ok (map (λ id. where_valid n_local (outside n_local id) id) ids)
map_topk_to_local ids n_local pinned (some emap) =
    if not pinned then raise runtime_error else ok (map (map_id n_local emap) ids)

-- an entry of the map that is an expert of this rank
abbrev pub local_of : ℕ → ℤ → Option ℕ
local_of n_local (negsuc k) = none
local_of n_local (pos k) = if ltb k n_local then some k else none

abbrev pub local_entry : ℕ → Option ℤ → Option ℕ
local_entry n_local none = none
local_entry n_local (some z) = local_of n_local z

-- the expert of an id on this rank
abbrev pub local_expert : ℕ → List ℤ → ℤ → Option ℕ
local_expert n_local emap (negsuc n) = none
local_expert n_local emap (pos n) = local_entry n_local (get_elem? emap n)

abbrev pub or_else : ℕ → Option ℕ → ℕ
or_else n none = n
or_else n (some k) = k

get_elem?-outside : (zs : List ℤ) (n : ℕ) → length zs ≤ n → get_elem? zs n ≡ none
get_elem?-outside [] n h = refl
get_elem?-outside (z ∷ zs) zero h = absurd (omega arith)
get_elem?-outside (z ∷ zs) (suc n) h = get_elem?-outside zs n (omega arith)

get_elem?-inside : (zs : List ℤ) (n : ℕ) → n < length zs → (z : ℤ) × (get_elem? zs n ≡ some z)
get_elem?-inside [] n h = absurd (omega arith)
get_elem?-inside (z ∷ zs) zero h = (z, refl)
get_elem?-inside (z ∷ zs) (suc n) h = get_elem?-inside zs n (omega arith)

where_valid_lem :
    (n_local : ℕ) (w : ℤ)
    → where_valid n_local (outside n_local w) w ≡ pos (or_else n_local (local_of n_local w))
where_valid_lem n_local (negsuc k) = refl
where_valid_lem n_local (pos k) = elim (Bool-cases (ltb k n_local)) [
  | inl t ↦ let inside : leb n_local k ≡ false = ground arith in rw (t, inside) refl
  | inr f ↦ let beyond : leb n_local k ≡ true = ground arith in rw (f, beyond) refl
]

map_id_lem :
    (n_local : ℕ) (emap : List ℤ) (id : ℤ)
    → map_id n_local emap id ≡ pos (or_else n_local (local_expert n_local emap id))
map_id_lem n_local emap (negsuc n) = refl
map_id_lem n_local [] (pos n) = let beyond : leb 0 n ≡ true = ground arith in rw beyond refl
map_id_lem n_local (z ∷ zs) (pos n) = elim (Bool-cases (leb (length (z ∷ zs)) n)) [
  | inl t ↦
      let far : length (z ∷ zs) ≤ n = leb→le (length (z ∷ zs)) n t in
      rw (t, get_elem?-outside (z ∷ zs) n far) refl
  | inr f ↦
      let near : n < length (z ∷ zs) = ground arith in
      let (w, got) = get_elem?-inside (z ∷ zs) n near in
      let kept : min n (length (z ∷ zs) - 1) ≡ n = omega (arith, near) in
      rw (f, kept, got) (where_valid_lem n_local w)
]

entry_le : (n_local : ℕ) (o : Option ℤ) → or_else n_local (local_entry n_local o) ≤ n_local
entry_le n_local none = omega arith
entry_le n_local (some (negsuc k)) = omega arith
entry_le n_local (some (pos k)) = elim (Bool-cases (ltb k n_local)) [
  | inl t ↦ rw t (ground arith)
  | inr f ↦ rw f (omega arith)
]

local_expert_le :
    (n_local : ℕ) (emap : List ℤ) (id : ℤ)
    → or_else n_local (local_expert n_local emap id) ≤ n_local
local_expert_le n_local emap (negsuc n) = omega arith
local_expert_le n_local emap (pos n) = entry_le n_local (get_elem? emap n)

map-eq : {A B : Type 0} (f g : A → B) → ((a : A) → f a ≡ g a) → (xs : List A) → map f xs ≡ map g xs
map-eq f g h [] = refl
map-eq f g h (x ∷ xs) = rw (h x, map-eq f g h xs) refl

-- With a map that is pinned, each id becomes the local expert that the map has for it, and the
-- sentinel `n_local` if it is negative or beyond the map, or if the map has an expert of another
-- rank for it; every entry of the result is from 0 to `n_local`. Without a map each id from 0 to
-- below `n_local` stays, and any other becomes the sentinel. A map that is not pinned raises.
pub map_topk_to_local_lem :
    (ids : List ℤ) (n_local : ℕ) (pinned : Bool) (emap : List ℤ)
    → (map_topk_to_local ids n_local true (some emap)
        ≡ ok (map (λ id. pos (or_else n_local (local_expert n_local emap id))) ids))
      × ((id : ℤ) → or_else n_local (local_expert n_local emap id) ≤ n_local)
      × (map_topk_to_local ids n_local pinned none
          ≡ ok (map (λ id. pos (or_else n_local (local_of n_local id))) ids))
      × (map_topk_to_local ids n_local false (some emap) ≡ raise runtime_error)
unfolding map_topk_to_local
map_topk_to_local_lem ids n_local pinned emap = (
  ap ok (map-eq (map_id n_local emap) _ (map_id_lem n_local emap) ids),
  local_expert_le n_local emap,
  ap ok
      (map-eq (λ id. where_valid n_local (outside n_local id) id) _ (where_valid_lem n_local) ids),
  refl,
)
