-- ===== src/Moe/Arenas/Complete.antt =====
-- Every expert of `prepare_trellis_arena_plan`, src/vllm_exl3/exl3.py, has a slot of its own.
use vllm_exl.Prelude.{
  ℕ, suc, ◌≡◌, refl, ap, ◌∙◌, sym, ◌==◌, Bool, true, false, ◌||◌, ◌&&◌, not, some, List, [], ◌∷◌,
  ◌++◌, ltb, arith, Bool-cases, Result-cases, inl, inr, ok, raise,
}
use mathlib.Core.Path.{subst}
use vllm_exl.Prelude.Keys.{member}
use vllm_exl.Moe.Arenas.Defs.{
  Shape, Shapes, Groups, Slot, Plan, resident, sort, group_from, by_shape, index_arena, index_all,
  final_bytes, prepare_trellis_arena_plan, slot_of,
}
use vllm_exl.Moe.Arenas.Members.{
  has_expert, ids, or-false, member-append, group_from-expert, sort-ids, resident-ids,
  expert_in-has,
}
use vllm_exl.Moe.Arenas.Slots.{
  Index, Held, ok-injective, expert_in, group_from-Distinct, index_all-Held, slot_of-All,
}

or-left : (a b : Bool) → a ≡ true → (a || b) ≡ true
or-left true b h = refl
or-left false b h = absurd (ground arith)

or-right : (a b : Bool) → b ≡ true → (a || b) ≡ true
or-right true b h = refl
or-right false b h = h

plan-injective : (a b : Plan) → ok a ≡ ok b → a ≡ b
plan-injective a b h = ap (λ r. elim r [ ok x ↦ x | raise e ↦ a ]) h

index_arena-member :
    (n : ℕ) (s : Shape) (i : ℕ) (ks : List ℕ) (xs : Index) (j : ℕ)
    → index_arena n s i ks ≡ ok xs
    → member j ks ≡ true
    → member j (ids xs) ≡ true
unfolding index_arena member
index_arena-member n s i [] xs j h m = absurd (ground arith)
index_arena-member n s i (k ∷ ks) xs j h m = elim (Bool-cases (ltb k n)) [
  | inr f ↦ absurd (ground arith)
  | inl t ↦ elim (Result-cases (index_arena n s (suc i) ks)) [
    | inr (e, r) ↦ absurd (ground arith)
    | inl (ys, r) ↦
        let same : (k, (s, i)) ∷ ys ≡ xs =
          ok-injective _ xs (sym (rw (index_arena, t, r) refl) ∙ h) in
        subst (λ zs. member j (ids zs) ≡ true) same
          (elim (Bool-cases (j == k)) [
            | inl e ↦ or-left (j == k) _ e
            | inr e ↦
                let later : member j ks ≡ true = ground arith in
                or-right (j == k) _ (index_arena-member n s (suc i) ks ys j r later)
          ])
  ]
]

ids-append : (xs ys : Index) → ids (xs ++ ys) ≡ ids xs ++ ids ys
ids-append [] ys = refl
ids-append (e ∷ xs) ys = ap (λ t. e.0 ∷ t) (ids-append xs ys)

index_all-member :
    (n : ℕ) (gs : Groups) (xs : Index) (j : ℕ)
    → index_all n gs ≡ ok xs
    → has_expert j gs ≡ true
    → member j (ids xs) ≡ true
unfolding index_all
index_all-member n [] xs j h m = absurd (ground arith)
index_all-member n ((s, ks) ∷ gs) xs j h m = elim (Result-cases (index_arena n s 0 ks)) [
  | inr (e, r) ↦ absurd (ground arith)
  | inl (first, r) ↦ elim (Result-cases (index_all n gs)) [
    | inr (e, o) ↦ absurd (ground arith)
    | inl (rest, o) ↦
        let same : first ++ rest ≡ xs =
          ok-injective (first ++ rest) xs (sym (rw (index_all, r, o) refl) ∙ h) in
        subst (λ zs. member j (ids zs) ≡ true) same
          (rw (ids-append first rest) (
            sym (member-append j (ids first) (ids rest)) ∙ (elim (Bool-cases (member j ks)) [
              | inl e ↦ or-left _ _ (index_arena-member n s 0 ks first j r e)
              | inr e ↦
                  let later : has_expert j gs ≡ true = ground arith in
                  or-right _ _ (index_all-member n gs rest j o later)
            ])))
  ]
]

slot_of-member :
    (k : ℕ) (xs : Index) → member k (ids xs) ≡ true → (x : Slot) × (slot_of k xs ≡ some x)
unfolding slot_of member
slot_of-member k [] h = absurd (ground arith)
slot_of-member k ((j, y) ∷ xs) h = elim (Bool-cases (k == j)) [
  | inl e ↦ rw e (y, refl)
  | inr e ↦ let later : member k (ids xs) ≡ true = ground arith in rw e (slot_of-member k xs later)
]

and-both : (a b : Bool) → (a && not b) ≡ true → (a ≡ true) × (b ≡ false)
and-both true false h = (refl, refl)
and-both true true h = absurd (ground arith)
and-both false b h = absurd (ground arith)

-- A plan that is returned gives every expert that has a shape and is not aliased a slot, and no
-- other, and a slot of an expert is
-- the place of that expert in the arenas: no two experts share a slot, and none points outside its
-- arena.
pub prepare_trellis_arena_plan_lem :
    (n_experts : ℕ) (aliased : List ℕ) (shapes : Shapes) (plan : Plan)
    → prepare_trellis_arena_plan n_experts aliased shapes ≡ ok plan
    → ((k : ℕ)
        → member k (ids shapes) ≡ true
        → member k aliased ≡ false
        → (x : Slot) × (slot_of k plan.eid_index ≡ some x))
      × ((k : ℕ) (x : Slot)
          → slot_of k plan.eid_index ≡ some x
          → (member k (ids shapes) ≡ true)
            × (member k aliased ≡ false)
            × (expert_in x plan.arenas ≡ some k))
unfolding prepare_trellis_arena_plan by_shape
prepare_trellis_arena_plan_lem n_experts aliased shapes plan h =
    let es = resident aliased (sort shapes) in
    let gs = group_from [] es in
    elim (Result-cases (index_all n_experts gs)) [
      | inr (e, m) ↦ absurd (ground arith)
      | inl (xs, m) ↦
          let same : record { arenas = gs; eid_index = xs; bytes = final_bytes gs } ≡ plan =
            plan-injective _ plan (sym (rw (prepare_trellis_arena_plan, m) refl) ∙ h) in
          let held = index_all-Held n_experts gs xs (group_from-Distinct [] es tt) m in
          let listed = λ (k : ℕ).
            group_from-expert k [] es
            ∙ or-false (member k (ids es))
            ∙ resident-ids k aliased (sort shapes)
            ∙ ap (λ b. b && not (member k aliased)) (sort-ids k shapes) in
          subst
            (λ p.
              ((k : ℕ)
                → member k (ids shapes) ≡ true
                → member k aliased ≡ false
                → (x : Slot) × (slot_of k p.eid_index ≡ some x))
              × ((k : ℕ) (x : Slot)
                  → slot_of k p.eid_index ≡ some x
                  → (member k (ids shapes) ≡ true)
                    × (member k aliased ≡ false)
                    × (expert_in x p.arenas ≡ some k)))
            same
            (
              λ k i a.
                  slot_of-member k xs
                    (index_all-member n_experts gs xs k m (listed k ∙ rw (i, a) refl)),
              λ k x f.
                  let here = (slot_of-All (Held gs) k x xs held f).0 in
                  let (shaped, free) = and-both _ _ (sym (listed k) ∙ expert_in-has k x gs here) in
                  (shaped, free, here),
            )
    ]
