-- ===== src/Moe/Arenas/Slots.antt =====
-- The slots that `prepare_trellis_arena_plan` of src/vllm_exl3/exl3.py gives the experts.
use vllm_exl.Prelude.{
  ℕ, suc, ◌-◌, ◌≤◌, ◌≡◌, refl, ap, ◌∙◌, sym, ◌==◌, Bool, true, false, ◌||◌, Option, none, some,
  List, [], ◌∷◌, ◌++◌, ltb, if◌then◌else◌, All, All-append, get_elem?, arith, Bool-cases,
  Result-cases, inl, inr, ok, raise, if-both,
}
use mathlib.Core.Path.{subst}
use vllm_exl.Moe.Arenas.Defs.{
  Shape, Shapes, Groups, Slot, shape_eq, add, group_from, index_arena, index_all, slot_of,
}

shape_eq_refl : (s : Shape) → shape_eq s s ≡ true
unfolding shape_eq
shape_eq_refl [] = refl
shape_eq_refl (a ∷ s) = let own : (a == a) ≡ true = ground arith in rw own (shape_eq_refl s)

shape_eq_sound : (s t : Shape) → shape_eq s t ≡ true → s ≡ t
unfolding shape_eq
shape_eq_sound [] [] h = refl
shape_eq_sound [] (b ∷ t) h = absurd (ground arith)
shape_eq_sound (a ∷ s) [] h = absurd (ground arith)
shape_eq_sound (a ∷ s) (b ∷ t) h =
    let front : a ≡ b = ground arith in
    let rest : shape_eq s t ≡ true = ground arith in rw (front, shape_eq_sound s t rest) refl

shape_eq_comm : (s t : Shape) → shape_eq s t ≡ false → shape_eq t s ≡ false
shape_eq_comm s t h = elim (Bool-cases (shape_eq t s)) [
  | inr f ↦ f
  | inl e ↦
      let same : t ≡ s = shape_eq_sound t s e in
      let own : shape_eq s t ≡ true = rw same (shape_eq_refl s) in absurd (ground arith)
]

-- whether there is an arena of a shape
unfoldable pub has_shape : Shape → Groups → Bool
has_shape s [] = false
has_shape s ((t, ks) ∷ gs) = shape_eq s t || has_shape s gs

-- one arena for a shape
abbrev pub Distinct : Groups → Type 0
Distinct [] = Unit
Distinct ((t, ks) ∷ gs) = (has_shape t gs ≡ false) × Distinct gs

has_shape-add :
    (r : Shape) (k : ℕ) (s : Shape) (gs : Groups)
    → has_shape r gs ≡ false
    → shape_eq r s ≡ false
    → has_shape r (add k s gs) ≡ false
unfolding has_shape add
has_shape-add r k s [] h n = rw n refl
has_shape-add r k s ((t, ks) ∷ gs) h n =
    let front : shape_eq r t ≡ false = ground arith in
    let rest : has_shape r gs ≡ false = ground arith in
    if-both (λ (x : Groups). has_shape r x ≡ false) (shape_eq s t) _ _ (rw front rest)
      (rw front (has_shape-add r k s gs rest n))

add-Distinct : (k : ℕ) (s : Shape) (gs : Groups) → Distinct gs → Distinct (add k s gs)
unfolding has_shape add
add-Distinct k s [] h = (refl, tt)
add-Distinct k s ((t, ks) ∷ gs) h = elim (Bool-cases (shape_eq s t)) [
  | inl e ↦ rw e h
  | inr f ↦ rw f (has_shape-add t k s gs h.0 (shape_eq_comm s t f), add-Distinct k s gs h.1)
]

pub group_from-Distinct : (gs : Groups) (es : Shapes) → Distinct gs → Distinct (group_from gs es)
unfolding group_from
group_from-Distinct gs [] h = h
group_from-Distinct gs ((k, s) ∷ es) h = group_from-Distinct (add k s gs) es (add-Distinct k s gs h)

-- the expert in a slot of the arenas
unfoldable pub expert_in : Slot → Groups → Option ℕ
expert_in (s, i) [] = none
expert_in (s, i) ((t, ks) ∷ gs) = if shape_eq s t then get_elem? ks i else expert_in (s, i) gs

abbrev pub Index : Type 0
Index = List (ℕ × Slot)

pub ok-injective : (a b : Index) → ok a ≡ ok b → a ≡ b
ok-injective a b h = ap (λ r. elim r [ ok x ↦ x | raise e ↦ a ]) h

-- an entry of the index of an arena from a slot on
abbrev pub Placed : Shape → ℕ → List ℕ → ℕ × Slot → Type 0
Placed s i ks e = (e.1.0 ≡ s) × (i ≤ e.1.1) × (get_elem? ks (e.1.1 - i) ≡ some e.0)

next-Placed :
    (s : Shape) (i k : ℕ) (ks : List ℕ) (e : ℕ × Slot)
    → Placed s (suc i) ks e
    → Placed s i (k ∷ ks) e
next-Placed s i k ks e h =
    let next : e.1.1 - i ≡ suc (e.1.1 - suc i) = omega (arith, h.1) in
    (h.0, omega (arith, h.1), rw next h.2)

All-map :
    (P Q : ℕ × Slot → Type 0) (xs : Index) → ((e : ℕ × Slot) → P e → Q e) → All P xs → All Q xs
All-map P Q [] f h = tt
All-map P Q (e ∷ xs) f h = (f e h.0, All-map P Q xs f h.1)

index_arena-Placed :
    (n : ℕ) (s : Shape) (i : ℕ) (ks : List ℕ) (xs : Index)
    → index_arena n s i ks ≡ ok xs
    → All (Placed s i ks) xs
unfolding index_arena
index_arena-Placed n s i [] xs h =
    let same : [] ≡ xs = ground arith in subst (All (Placed s i [])) same tt
index_arena-Placed n s i (k ∷ ks) xs h = elim (Bool-cases (ltb k n)) [
  | inr f ↦ absurd (ground arith)
  | inl t ↦ elim (Result-cases (index_arena n s (suc i) ks)) [
    | inr (e, m) ↦ absurd (ground arith)
    | inl (ys, m) ↦
        let same : (k, (s, i)) ∷ ys ≡ xs =
          ok-injective _ xs (sym (rw (index_arena, t, m) refl) ∙ h) in
        let rest = index_arena-Placed n s (suc i) ks ys m in
        let first : i - i ≡ 0 = omega arith in
        subst (All (Placed s i (k ∷ ks))) same (
          (refl, omega arith, rw first refl),
          All-map (Placed s (suc i) ks) (Placed s i (k ∷ ks)) ys (next-Placed s i k ks) rest,
        )
  ]
]

-- an entry of the whole index
abbrev pub Held : Groups → ℕ × Slot → Type 0
Held gs e = (expert_in e.1 gs ≡ some e.0) × (has_shape e.1.0 gs ≡ true)

first-Held :
    (s : Shape) (ks : List ℕ) (gs : Groups) (e : ℕ × Slot) → Placed s 0 ks e → Held ((s, ks) ∷ gs) e
unfolding expert_in has_shape
first-Held s ks gs e h =
    let own : shape_eq e.1.0 s ≡ true = rw h.0 (shape_eq_refl s) in
    let place : e.1.1 - 0 ≡ e.1.1 = omega arith in
    let there : get_elem? ks e.1.1 ≡ some e.0 = subst (λ i. get_elem? ks i ≡ some e.0) place h.2 in
    rw own (there, refl)

later-Held :
    (s : Shape) (ks : List ℕ) (gs : Groups)
    → has_shape s gs ≡ false
    → (e : ℕ × Slot) → Held gs e
    → Held ((s, ks) ∷ gs) e
unfolding expert_in has_shape
later-Held s ks gs fresh e h = elim (Bool-cases (shape_eq e.1.0 s)) [
  | inr f ↦ rw f h
  | inl t ↦
      let same : e.1.0 ≡ s = shape_eq_sound e.1.0 s t in
      let here : has_shape s gs ≡ true = subst (λ r. has_shape r gs ≡ true) same h.1 in
      absurd (ground arith)
]

pub index_all-Held :
    (n : ℕ) (gs : Groups) (xs : Index) → Distinct gs → index_all n gs ≡ ok xs → All (Held gs) xs
unfolding index_all
index_all-Held n [] xs d h =
    let same : [] ≡ xs = ok-injective [] xs h in subst (All (Held [])) same tt
index_all-Held n ((s, ks) ∷ gs) xs d h = elim (Result-cases (index_arena n s 0 ks)) [
  | inr (e, m) ↦ absurd (ground arith)
  | inl (first, m) ↦ elim (Result-cases (index_all n gs)) [
    | inr (e, o) ↦ absurd (ground arith)
    | inl (rest, o) ↦
        let same : first ++ rest ≡ xs =
          ok-injective (first ++ rest) xs (sym (rw (index_all, m, o) refl) ∙ h) in
        let front =
          All-map (Placed s 0 ks) (Held ((s, ks) ∷ gs)) first (first-Held s ks gs)
            (index_arena-Placed n s 0 ks first m) in
        let back =
          All-map (Held gs) (Held ((s, ks) ∷ gs)) rest (later-Held s ks gs d.0)
            (index_all-Held n gs rest d.1 o) in
        subst (All (Held ((s, ks) ∷ gs))) same (All-append _ first rest front back)
  ]
]

pub slot_of-All :
    (P : ℕ × Slot → Type 0) (k : ℕ) (x : Slot) (xs : Index)
    → All P xs
    → slot_of k xs ≡ some x
    → P (k, x)
unfolding slot_of
slot_of-All P k x [] h m = absurd (ground arith)
slot_of-All P k x ((j, y) ∷ xs) h m = elim (Bool-cases (k == j)) [
  | inr f ↦ let there : slot_of k xs ≡ some x = ground arith in slot_of-All P k x xs h.1 there
  | inl t ↦
      let same : k ≡ j = ground arith in
      let slot : y ≡ x = ground arith in
      subst (λ z. P (k, z)) slot (subst (λ i. P (i, y)) (sym same) h.0)
]
