-- ===== src/Nvme/Engram/Written.antt =====
-- What the loop of `gather_into` of experiments/dsv41_nvme/engram_rows.py leaves in the storage,
-- and what `_validate` lets through.
use vllm_exl.Prelude.{
  ℕ, suc, ◌+◌, ◌*◌, ◌≤◌, ◌<◌, ◌≡◌, refl, ap, ◌∙◌, sym, ◌==◌, true, false, ◌||◌, not, pos, negsuc,
  Option, some, List, [], ◌∷◌, ◌++◌, map, ltb, length, take, drop, length-append, All, arith,
  Bool-cases, Option-cases, inl, inr, ok, raise, Error, os_error, value_error, runtime_error, ◌⊎◌,
}
use mathlib.Core.List.{append-nil, append_assoc}
use native.Mathlib.Nat.{suc-mul}
use vllm_exl.Prelude.Values.{Value, none_value, other_value, bool_value, int_value, str_value}
use vllm_exl.Nvme.Reads.Defs.{Bytes, splice}
use vllm_exl.Nvme.Reads.Slices.{take-length, take-parts, length-take}
use vllm_exl.Nvme.Reads.Filled.{splice-length}
use vllm_exl.Nvme.Engram.Defs.{
  Signature, Payloads, Engram, dim, scale_bytes, max_request, row_id, ownership, all_some, validate,
}
use vllm_exl.Nvme.Engram.Calls.{Output, weight_of, scale_of, write}

abbrev pub concat : List Bytes → Bytes
concat [] = []
concat (b ∷ bs) = b ++ concat bs

-- the loop on one of the buffers
abbrev splice_all : ℕ → ℕ → List Bytes → Bytes → Bytes
splice_all width i [] buffer = buffer
splice_all width i (p ∷ ps) buffer = splice_all width (suc i) ps (splice buffer (i * width) p)

abbrev pub Wide : ℕ → List Bytes → Type 0
Wide width ps = All (λ p. length p ≡ width) ps

splice_all-concat :
    (width i : ℕ) (ps : List Bytes) (buffer : Bytes)
    → Wide width ps
    → i * width + length (concat ps) ≡ length buffer
    → splice_all width i ps buffer ≡ take (i * width) buffer ++ concat ps
splice_all-concat width i [] buffer h e =
    let whole : i * width ≡ length buffer = omega arith in
    rw whole (sym (take-length buffer) ∙ sym (append-nil (take (length buffer) buffer)))
splice_all-concat width i (p ∷ ps) buffer h e =
    let front : length (take (i * width) buffer) ≡ i * width =
      length-take (i * width) buffer (omega arith) in
    let next : i * width + length p ≡ suc i * width = omega (arith, suc-mul i width, h.0) in
    let wide : length (concat (p ∷ ps)) ≡ length p + length (concat ps) =
      length-append p (concat ps) in
    let same : length (splice buffer (i * width) p) ≡ length buffer =
      splice-length buffer (i * width) p front (omega (arith, e, wide)) in
    let kept : take (suc i * width) (splice buffer (i * width) p) ≡ take (i * width) buffer ++ p =
      ap (λ n. take n (splice buffer (i * width) p)) (sym next)
      ∙ ap (λ n. take (n + length p) (splice buffer (i * width) p)) (sym front)
      ∙ take-parts (take (i * width) buffer) p (drop (i * width + length p) buffer) in
    splice_all-concat width (suc i) ps (splice buffer (i * width) p) h.1
      (omega (arith, e, wide, next, same))
    ∙ ap (λ t. t ++ concat ps) kept
    ∙ append_assoc (take (i * width) buffer) p (concat ps)

length-map : {A : Type 0} (f : A → Bytes) (xs : List A) → length (map f xs) ≡ length xs
length-map f [] = refl
length-map f (x ∷ xs) = ap suc (length-map f xs)

length-concat :
    (width : ℕ) (ps : List Bytes) → Wide width ps → length (concat ps) ≡ length ps * width
length-concat width [] h = omega arith
length-concat width (p ∷ ps) h =
    omega (
      arith,
      length-concat width ps h.1,
      h.0,
      length-append p (concat ps),
      suc-mul (length ps) width,
    )

write-splice_all :
    (i : ℕ) (ps : Payloads) (out : Output)
    → ((write i ps out).weight ≡ splice_all dim i (map weight_of ps) out.weight)
      × ((write i ps out).scale ≡ splice_all scale_bytes i (map scale_of ps) out.scale)
unfolding write
write-splice_all i [] out = (refl, refl)
write-splice_all i (p ∷ ps) out = write-splice_all (suc i) ps _

-- the storage of the right size holds the rows one after the other
pub write-concat :
    (ps : Payloads) (out : Output)
    → Wide dim (map weight_of ps)
    → Wide scale_bytes (map scale_of ps)
    → length out.weight ≡ length ps * dim
    → length out.scale ≡ length ps * scale_bytes
    → ((write 0 ps out).weight ≡ concat (map weight_of ps))
      × ((write 0 ps out).scale ≡ concat (map scale_of ps))
write-concat ps out w s p q =
    let (weights, scales) = write-splice_all 0 ps out in
    let fits = length-concat dim (map weight_of ps) w in
    let fits' = length-concat scale_bytes (map scale_of ps) s in
    (
      weights
          ∙ splice_all-concat dim 0 (map weight_of ps) out.weight w
              (omega (arith, p, fits, length-map weight_of ps)),
      scales
          ∙ splice_all-concat scale_bytes 0 (map scale_of ps) out.scale s
              (omega (arith, q, fits', length-map scale_of ps)),
    )

-- what `_validate` lets through: as many marks as rows, and rows of the table
pub record Validated (rows owned : List Value) (s : Engram) (signature : Signature) : Type 0 where
  pub opened : s.closed ≡ false
  pub ids : All (λ r. r < s.layout.rows) signature.0
  pub lengths : length signature.0 ≡ length signature.1
  pub short : length signature.0 ≤ max_request

row_id-below : (n : ℕ) (v : Value) (r : ℕ) → row_id n v ≡ some r → r < n
row_id-below n (int_value (pos m)) r h = elim (Bool-cases (ltb m n)) [
  | inl t ↦ let same : m ≡ r = ground arith in ground arith
  | inr f ↦ absurd (ground arith)
]
row_id-below n (int_value (negsuc m)) r h = absurd (ground arith)
row_id-below n (bool_value b) r h = absurd (ground arith)
row_id-below n none_value r h = absurd (ground arith)
row_id-below n other_value r h = absurd (ground arith)
row_id-below n (str_value t) r h = absurd (ground arith)

all_some-All :
    {A : Type 0} (f : Value → Option A) (P : A → Type 0)
    → ((v : Value) (a : A) → f v ≡ some a → P a)
    → (vs : List Value) (xs : List A) → all_some f vs ≡ some xs
    → All P xs × (length xs ≡ length vs)
all_some-All f P g [] [] h = (tt, refl)
all_some-All f P g [] (x ∷ xs) h = absurd (ground arith)
all_some-All f P g (v ∷ vs) xs h = elim (Option-cases (f v)) [
  | inl n ↦ absurd (ground arith)
  | inr (a, n) ↦ elim (Option-cases (all_some f vs)) [
    | inl m ↦ absurd (ground arith)
    | inr (rest, m) ↦
        let same : a ∷ rest ≡ xs = ground arith in
        let (all, sized) = all_some-All f P g vs rest m in
        rw (sym same) ((g v a n, all), ap suc sized)
  ]
]

pub validate-Validated :
    (rows owned : List Value) (s : Engram) (signature : Signature)
    → validate rows owned s ≡ ok signature
    → Validated rows owned s signature
unfolding validate
validate-Validated rows owned s signature h = elim (Bool-cases s.closed) [
  | inl c ↦ absurd (ground arith)
  | inr c ↦ elim (Bool-cases (not (length rows == length owned) || ltb max_request (length rows))) [
    | inl b ↦ absurd (ground arith)
    | inr b ↦ elim (Option-cases (all_some (row_id s.layout.rows) rows)) [
      | inl n ↦ absurd (ground arith)
      | inr (ids, n) ↦ elim (Option-cases (all_some ownership owned)) [
        | inl m ↦ absurd (ground arith)
        | inr (mask, m) ↦
            let same : (ids, mask) ≡ signature = ground arith in
            let (all, sized) =
              all_some-All (row_id s.layout.rows) (λ r. r < s.layout.rows)
                (row_id-below s.layout.rows) rows ids n in
            let (any, sized') = all_some-All ownership (λ b. Unit) (λ v a e. tt) owned mask m in
            let equal : length rows ≡ length owned = ground arith in
            let few : length rows ≤ max_request = ground arith in
            rw (sym same) (record {
              opened = c;
              ids = all;
              lengths = omega (arith, sized, sized');
              short = omega (arith, sized);
            })
      ]
    ]
  ]
]

pub validate-raise :
    (rows owned : List Value) (s : Engram) (e : Error)
    → validate rows owned s ≡ raise e
    → (e ≡ os_error) ⊎ ((e ≡ value_error) ⊎ ((e ≡ runtime_error) × (s.closed ≡ true)))
unfolding validate
validate-raise rows owned s e h = elim (Bool-cases s.closed) [
  | inl c ↦ inr (inr (ground arith, c))
  | inr c ↦ elim (Bool-cases (not (length rows == length owned) || ltb max_request (length rows))) [
    | inl b ↦ inr (inl (ground arith))
    | inr b ↦ elim (Option-cases (all_some (row_id s.layout.rows) rows)) [
      | inl n ↦ inr (inl (ground arith))
      | inr (ids, n) ↦ elim (Option-cases (all_some ownership owned)) [
        | inl m ↦ inr (inl (ground arith))
        | inr (mask, m) ↦ absurd (ground arith)
      ]
    ]
  ]
]
