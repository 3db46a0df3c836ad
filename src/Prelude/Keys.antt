-- ===== src/Prelude/Keys.antt =====
-- `key in keys`, and `list(dict.fromkeys(keys))`: the keys without repetitions, in order.
use Prim.Native.Nat.{ℕ}
use mathlib.Core.Path.{◌≡◌, refl}
use mathlib.Core.Logic.{inl, inr}
use mathlib.Core.Bool.{Bool, true, false, ◌||◌}
use mathlib.Core.List.{List, [], ◌∷◌}
use vllm_exl.Prelude.Tests.{◌==◌, Bool-cases}
use native.Mathlib.Omega.{arith}

unfoldable pub member : ℕ → List ℕ → Bool
member k [] = false
member k (j ∷ js) = k == j || member k js

-- without the keys that were seen
unfoldable pub distinct : List ℕ → List ℕ → List ℕ
unfolding member
distinct seen [] = []
distinct seen (k ∷ ks) = elim (member k seen) [
  | true ↦ distinct seen ks
  | false ↦ k ∷ distinct (k ∷ seen) ks
]

pub or-true : (a b : Bool) → a ≡ true → (a || b) ≡ true
or-true true b h = refl
or-true false b h = absurd (ground arith)

pub or-skip : (a b : Bool) → b ≡ true → (a || b) ≡ true
or-skip true b h = refl
or-skip false b h = h

or-back : (a b c : Bool) → ((b || a) || c) ≡ true → (a || (b || c)) ≡ true
or-back true b c h = refl
or-back false true c h = refl
or-back false false c h = h

-- no key is lost
pub distinct-member :
    (k : ℕ) (seen ks : List ℕ)
    → member k ks ≡ true
    → (member k seen || member k (distinct seen ks)) ≡ true
unfolding member distinct
distinct-member k seen [] h = absurd (ground arith)
distinct-member k seen (j ∷ js) h = elim (Bool-cases (member j seen)) [
  | inl t ↦ elim (Bool-cases (k == j)) [
    | inl e ↦
        let same : k ≡ j = ground arith in
        let there : member k seen ≡ true = rw same t in rw (distinct, t) (or-true _ _ there)
    | inr e ↦
        let later : member k js ≡ true = ground arith in
        rw (distinct, t) (distinct-member k seen js later)
  ]
  | inr f ↦ elim (Bool-cases (k == j)) [
    | inl e ↦ rw (distinct, f) (or-skip (member k seen) _ (or-true (k == j) _ e))
    | inr e ↦
        let later : member k js ≡ true = ground arith in
        rw (distinct, f)
          (or-back (member k seen) (k == j) _ (distinct-member k (j ∷ seen) js later))
  ]
]
