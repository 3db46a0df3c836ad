-- ===== src/Nvme/Reads/Slices.antt =====
-- Prefixes and suffixes of lists.
use vllm_exl.Prelude.{
  ℕ, zero, suc, ◌+◌, ◌≤◌, ◌≡◌, refl, ap, ◌∙◌, sym, List, [], ◌∷◌, ◌++◌, length, take, drop,
  length-append, arith,
}

module _ {ℓ} {A : Type ℓ} where
  take-none : (n : ℕ) → take {A = A} n [] ≡ []
  take-none zero = refl
  take-none (suc n) = refl

  drop-none : (n : ℕ) → drop {A = A} n [] ≡ []
  drop-none zero = refl
  drop-none (suc n) = refl

  pub take-take-drop : (a b : ℕ) (xs : List A) → take a xs ++ take b (drop a xs) ≡ take (a + b) xs
  take-take-drop zero b xs = let e : b ≡ 0 + b = omega arith in ap (λ n. take n xs) e
  take-take-drop (suc a) b [] = take-none b ∙ sym (take-none (suc a + b))
  take-take-drop (suc a) b (x ∷ xs) =
      let e : suc (a + b) ≡ suc a + b = omega arith in
      ap (λ t. x ∷ t) (take-take-drop a b xs) ∙ ap (λ n. take n (x ∷ xs)) e

  pub drop-drop : (a b : ℕ) (xs : List A) → drop a (drop b xs) ≡ drop (b + a) xs
  drop-drop a zero xs = let e : a ≡ 0 + a = omega arith in ap (λ n. drop n xs) e
  drop-drop a (suc b) [] = drop-none a ∙ sym (drop-none (suc b + a))
  drop-drop a (suc b) (x ∷ xs) =
      let e : suc (b + a) ≡ suc b + a = omega arith in
      drop-drop a b xs ∙ ap (λ n. drop n (x ∷ xs)) e

  pub take-append : (xs ys : List A) → take (length xs) (xs ++ ys) ≡ xs
  take-append [] ys = refl
  take-append (x ∷ xs) ys = ap (λ t. x ∷ t) (take-append xs ys)

  pub take-length : (xs : List A) → take (length xs) xs ≡ xs
  take-length [] = refl
  take-length (x ∷ xs) = ap (λ t. x ∷ t) (take-length xs)

  pub length-take : (n : ℕ) (xs : List A) → n ≤ length xs → length (take n xs) ≡ n
  length-take zero xs h = refl
  length-take (suc n) [] h = absurd (omega arith)
  length-take (suc n) (x ∷ xs) h = ap suc (length-take n xs (omega arith))

  pub length-parts :
      (xs ys zs : List A) → length (xs ++ ys ++ zs) ≡ length xs + length ys + length zs
  length-parts xs ys zs = omega (arith, length-append (xs ++ ys) zs, length-append xs ys)

  pub take-parts : (xs ys zs : List A) → take (length xs + length ys) (xs ++ ys ++ zs) ≡ xs ++ ys
  take-parts xs ys zs = rw (sym (length-append xs ys)) (take-append (xs ++ ys) zs)

  pub drop-append : (xs ys : List A) → drop (length xs) (xs ++ ys) ≡ ys
  drop-append [] ys = refl
  drop-append (x ∷ xs) ys = drop-append xs ys
