-- ===== src/Moe/Arenas/Members.antt =====
-- Which experts the arenas of `prepare_trellis_arena_plan`, src/vllm_exl3/exl3.py, have.
use vllm_exl.Prelude.{
  ℕ, ◌≡◌, refl, ap, ◌∙◌, sym, ◌==◌, Bool, true, false, ◌||◌, ◌&&◌, not, leb, some, List, [], ◌∷◌,
  ◌++◌, arith, Bool-cases, inl, inr, get_elem?, zero, suc,
}
use vllm_exl.Prelude.Keys.{member}
use vllm_exl.Moe.Arenas.Defs.{
  Shape, Shapes, Groups, Slot, shape_eq, resident, insert, sort, add, group_from,
}
use vllm_exl.Moe.Arenas.Slots.{expert_in}

-- whether an expert is in the arenas
abbrev pub has_expert : ℕ → Groups → Bool
has_expert k [] = false
has_expert k ((t, ks) ∷ gs) = member k ks || has_expert k gs

abbrev pub ids : {A : Type 0} → List (ℕ × A) → List ℕ
ids [] = []
ids (e ∷ es) = e.0 ∷ ids es

or-swap : (a b c : Bool) → (a || (b || c)) ≡ (b || (a || c))
or-swap true true c = refl
or-swap true false c = refl
or-swap false b c = refl

or_assoc : (a b c : Bool) → (a || (b || c)) ≡ ((b || a) || c)
or_assoc true true c = refl
or_assoc true false c = refl
or_assoc false true c = refl
or_assoc false false c = refl

pub or-false : (a : Bool) → (a || false) ≡ a
or-false true = refl
or-false false = refl

or-last : (a x b : Bool) → ((a || (x || false)) || b) ≡ (x || (a || b))
or-last true true b = refl
or-last true false b = refl
or-last false true b = refl
or-last false false b = refl

and-never : (a b : Bool) → (a && false) ≡ (b && false)
and-never true true = refl
and-never true false = refl
and-never false true = refl
and-never false false = refl

pub member-append : (k : ℕ) (as_ bs : List ℕ) → (member k as_ || member k bs) ≡ member k (as_ ++ bs)
unfolding member
member-append k [] bs = refl
member-append k (a ∷ as_) bs = elim (Bool-cases (k == a)) [
  | inl e ↦ rw e refl
  | inr e ↦ rw e (member-append k as_ bs)
]

add-expert :
    (j k : ℕ) (s : Shape) (gs : Groups) → has_expert j (add k s gs) ≡ ((j == k) || has_expert j gs)
unfolding add member
add-expert j k s [] = or-false ((j == k) || false)
add-expert j k s ((t, ks) ∷ gs) = elim (Bool-cases (shape_eq s t)) [
  | inl e ↦
      rw e
        (rw (sym (member-append j ks (k ∷ []))) (or-last (member j ks) (j == k) (has_expert j gs)))
  | inr e ↦ rw (e, add-expert j k s gs) (or-swap (member j ks) (j == k) (has_expert j gs))
]

-- the experts that are added, and those that were there
pub group_from-expert :
    (j : ℕ) (gs : Groups) (es : Shapes)
    → has_expert j (group_from gs es) ≡ (member j (ids es) || has_expert j gs)
unfolding group_from member
group_from-expert j gs [] = refl
group_from-expert j gs ((k, s) ∷ es) =
    group_from-expert j (add k s gs) es
    ∙ ap (λ b. member j (ids es) || b) (add-expert j k s gs)
    ∙ or_assoc (member j (ids es)) (j == k) (has_expert j gs)

-- the ids of the shapes, sorted
insert-ids :
    (k : ℕ) (e : ℕ × Shape) (es : Shapes)
    → member k (ids (insert e es)) ≡ ((k == e.0) || member k (ids es))
unfolding insert member
insert-ids k e [] = refl
insert-ids k e (f ∷ es) = elim (Bool-cases (leb e.0 f.0)) [
  | inl t ↦ rw t refl
  | inr n ↦ rw (n, insert-ids k e es) (or-swap (k == f.0) (k == e.0) (member k (ids es)))
]

pub sort-ids : (k : ℕ) (es : Shapes) → member k (ids (sort es)) ≡ member k (ids es)
unfolding sort member
sort-ids k [] = refl
sort-ids k (e ∷ es) = insert-ids k e (sort es) ∙ ap (λ b. (k == e.0) || b) (sort-ids k es)

-- an expert is resident where it has a shape and is not aliased
pub resident-ids :
    (k : ℕ) (aliased : List ℕ) (es : Shapes)
    → member k (ids (resident aliased es)) ≡ (member k (ids es) && not (member k aliased))
unfolding resident member
resident-ids k aliased [] = refl
resident-ids k aliased (e ∷ es) = elim (Bool-cases (member e.0 aliased)) [
  | inl t ↦ elim (Bool-cases (k == e.0)) [
    | inl c ↦
        let same : k ≡ e.0 = ground arith in
        let here : member k aliased ≡ true = rw same t in
        rw (t, resident-ids k aliased es, here)
          (and-never (member k (ids es)) (k == e.0 || member k (ids es)))
    | inr c ↦ rw (t, c) (resident-ids k aliased es)
  ]
  | inr f ↦ elim (Bool-cases (k == e.0)) [
    | inl c ↦
        let same : k ≡ e.0 = ground arith in
        let here : member k aliased ≡ false = rw same f in rw (f, c, here) refl
    | inr c ↦ rw (f, c) (resident-ids k aliased es)
  ]
]

get_elem?-member : (k : ℕ) (ks : List ℕ) (i : ℕ) → get_elem? ks i ≡ some k → member k ks ≡ true
unfolding member
get_elem?-member k [] i h = absurd (ground arith)
get_elem?-member k (j ∷ ks) zero h = let same : (k == j) ≡ true = ground arith in rw same refl
get_elem?-member k (j ∷ ks) (suc i) h = elim (Bool-cases (k == j)) [
  | inl t ↦ rw t refl
  | inr f ↦ rw f (get_elem?-member k ks i h)
]

-- an expert in a place of the arenas is in the arenas
pub expert_in-has :
    (k : ℕ) (x : Slot) (gs : Groups) → expert_in x gs ≡ some k → has_expert k gs ≡ true
unfolding expert_in
expert_in-has k (s, i) [] h = absurd (ground arith)
expert_in-has k (s, i) ((t, ks) ∷ gs) h = elim (Bool-cases (shape_eq s t)) [
  | inl e ↦
      let there : get_elem? ks i ≡ some k = ground arith in rw (get_elem?-member k ks i there) refl
  | inr e ↦ elim (Bool-cases (member k ks)) [
    | inl m ↦ rw m refl
    | inr m ↦ rw m (expert_in-has k (s, i) gs (ground arith))
  ]
]
