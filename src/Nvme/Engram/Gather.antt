-- ===== src/Nvme/Engram/Gather.antt =====
-- `gather_into` of experiments/dsv41_nvme/engram_rows.py, with a prefetch or without.
use vllm_exl.Prelude.{
  ℕ, suc, ◌+◌, ◌*◌, ◌≤◌, ◌<◌, ◌≡◌, refl, ap, ◌∙◌, sym, Bool, true, false, Option, none, some, List,
  [], ◌∷◌, ◌++◌, map, length, take, drop, length-drop, All, arith, Bool-cases, inl, inr, ◌⊎◌,
  Result, ok, raise, os_error, value_error, runtime_error, Result-cases,
}
use vllm_exl.Prelude.Values.{Value}
use vllm_exl.Nvme.Reads.Defs.{Bytes, extract, zeros}
use vllm_exl.Nvme.Reads.Slices.{take-append, drop-append, length-take}
use vllm_exl.Nvme.Engram.Defs.{
  Disk, Layout, Signature, Payloads, Engram, Outcome, dim, scale_bytes, validate,
}
use vllm_exl.Nvme.Engram.Calls.{
  Output, ids_eq, masks_eq, same_signature, weight_of, scale_of, resolve, fits, written, gather_of,
  gather_into,
}
use vllm_exl.Nvme.Engram.Fetch.{row_of, Honest, Right}
use vllm_exl.Nvme.Engram.Payloads.{Extents, expected, Brought, Valid, payloads-Answers}
use vllm_exl.Nvme.Engram.Written.{concat, Wide, write-concat, validate-Validated, validate-raise}

-- the parts of the rows one after the other, zeros where the mask is not set
unfoldable pub gathered : Bytes → ℕ → ℕ → List ℕ → List Bool → Bytes
gathered file offset width [] owned = []
gathered file offset width (r ∷ rs) [] = []
gathered file offset width (r ∷ rs) (true ∷ bs) =
    extract file (offset + r * width) width ++ gathered file offset width rs bs
gathered file offset width (r ∷ rs) (false ∷ bs) = zeros width ++ gathered file offset width rs bs

length-extract :
    (file : Bytes) (offset n : ℕ) → offset + n ≤ length file → length (extract file offset n) ≡ n
length-extract file offset n h =
    let left = length-drop offset file in length-take n (drop offset file) (omega (arith, left, h))

append_cong : {a b c d : Bytes} → a ≡ b → c ≡ d → a ++ c ≡ b ++ d
append_cong {b = b} {c = c} e f = ap (λ t. t ++ c) e ∙ ap (λ t. b ++ t) f

module _ (w_file s_file : Bytes) (l : Layout) (inside : Extents w_file s_file l) where
  parts_of :
      (r : ℕ)
      → r < l.rows
      → (weight_of (some (row_of w_file s_file l r)) ≡ extract w_file (l.w_offset + r * dim) dim)
        × (scale_of (some (row_of w_file s_file l r))
            ≡ extract s_file (l.s_offset + r * scale_bytes) scale_bytes)
        × (length (extract w_file (l.w_offset + r * dim) dim) ≡ dim)
        × (length (extract s_file (l.s_offset + r * scale_bytes) scale_bytes) ≡ scale_bytes)
  parts_of r h =
      let w = extract w_file (l.w_offset + r * dim) dim in
      let s = extract s_file (l.s_offset + r * scale_bytes) scale_bytes in
      let wide : length w ≡ dim =
        length-extract w_file (l.w_offset + r * dim) dim (omega (arith, h, inside.weights)) in
      let narrow : length s ≡ scale_bytes =
        length-extract s_file (l.s_offset + r * scale_bytes) scale_bytes
          (omega (arith, h, inside.scales)) in
      (
        ap (λ n. take n (w ++ s)) (sym wide) ∙ take-append w s,
        ap (λ n. drop n (w ++ s)) (sym wide) ∙ drop-append w s,
        wide,
        narrow,
      )

  expected-gathered :
      (rs : List ℕ) (bs : List Bool)
      → All (λ r. r < l.rows) rs
      → let ps = expected (row_of w_file s_file l) rs bs in
        Wide dim (map weight_of ps)
        × Wide scale_bytes (map scale_of ps)
        × (concat (map weight_of ps) ≡ gathered w_file l.w_offset dim rs bs)
        × (concat (map scale_of ps) ≡ gathered s_file l.s_offset scale_bytes rs bs)
  unfolding expected gathered
  expected-gathered [] bs h = (tt, tt, refl, refl)
  expected-gathered (r ∷ rs) [] h = (tt, tt, refl, refl)
  expected-gathered (r ∷ rs) (true ∷ bs) h =
      let (a, b, c, d) = expected-gathered rs bs h.1 in
      let (e, f, g, i) = parts_of r h.0 in
      ((ap length e ∙ g, a), (ap length f ∙ i, b), append_cong e c, append_cong f d)
  expected-gathered (r ∷ rs) (false ∷ bs) h =
      let (a, b, c, d) = expected-gathered rs bs h.1 in
      ((refl, a), (refl, b), ap (λ t. zeros dim ++ t) c, ap (λ t. zeros scale_bytes ++ t) d)

length-expected :
    (row : ℕ → Bytes) (rs : List ℕ) (bs : List Bool)
    → length rs ≡ length bs
    → length (expected row rs bs) ≡ length rs
unfolding expected
length-expected row [] bs h = refl
length-expected row (r ∷ rs) [] h = absurd (ground arith)
length-expected row (r ∷ rs) (true ∷ bs) h = ap suc (length-expected row rs bs (omega arith))
length-expected row (r ∷ rs) (false ∷ bs) h = ap suc (length-expected row rs bs (omega arith))

ids_eq_sound : (a b : List ℕ) → ids_eq a b ≡ true → a ≡ b
unfolding ids_eq
ids_eq_sound [] [] h = refl
ids_eq_sound [] (y ∷ b) h = absurd (ground arith)
ids_eq_sound (x ∷ a) [] h = absurd (ground arith)
ids_eq_sound (x ∷ a) (y ∷ b) h =
    let front : x ≡ y = ground arith in
    let rest : ids_eq a b ≡ true = ground arith in rw (front, ids_eq_sound a b rest) refl

masks_eq_sound : (a b : List Bool) → masks_eq a b ≡ true → a ≡ b
unfolding masks_eq
masks_eq_sound [] [] h = refl
masks_eq_sound [] (y ∷ b) h = absurd (ground arith)
masks_eq_sound (x ∷ a) [] h = absurd (ground arith)
masks_eq_sound (true ∷ a) (true ∷ b) h = ap (λ t. true ∷ t) (masks_eq_sound a b h)
masks_eq_sound (false ∷ a) (false ∷ b) h = ap (λ t. false ∷ t) (masks_eq_sound a b h)
masks_eq_sound (true ∷ a) (false ∷ b) h = absurd (ground arith)
masks_eq_sound (false ∷ a) (true ∷ b) h = absurd (ground arith)

-- what `gather_into` leaves if it returns, and what it may raise
abbrev pub Gathered : Bytes → Bytes → List Value → List Value → Engram → Result Output → Type 0
Gathered w_file s_file rows owned s (ok out) =
    (signature : Signature) × (validate rows owned s ≡ ok signature)
    × (out.weight ≡ gathered w_file s.layout.w_offset dim signature.0 signature.1)
    × (out.scale ≡ gathered s_file s.layout.s_offset scale_bytes signature.0 signature.1)
Gathered w_file s_file rows owned s (raise e) =
    (e ≡ os_error) ⊎ ((e ≡ value_error) ⊎ ((e ≡ runtime_error) × (s.closed ≡ true)))

-- the same object without its prefetch
dropped :
    {w_file s_file : Bytes} {s : Engram}
    → Valid w_file s_file s
    → Valid w_file s_file (record s {
      pending = none;
      stats = record s.stats { prefetch_consumed = s.stats.prefetch_consumed + 1 };
    })
dropped v = record {
  sound = v.sound;
  inside = v.inside;
  positive = v.positive;
  within = v.within;
  peak = v.peak;
  brought = tt;
}

unused :
    {w_file s_file : Bytes} {s : Engram}
    → Valid w_file s_file s
    → Valid w_file s_file (record s {
      pending = none;
      stats = record s.stats { prefetch_unused = s.stats.prefetch_unused + 1 };
    })
unused v = record {
  sound = v.sound;
  inside = v.inside;
  positive = v.positive;
  within = v.within;
  peak = v.peak;
  brought = tt;
}

-- a gather that ends, and leaves the object valid
abbrev pub Gathers :
    Bytes → Bytes → List Value → List Value → Engram → Option (Outcome Output) → Type 0
Gathers w_file s_file rows owned s o =
    (r : Outcome Output) × (o ≡ some r)
    × Valid w_file s_file r.1
    × Gathered w_file s_file rows owned s r.0

module _ (w_file s_file : Bytes) (disk : Disk) (limit : ℕ)
    (honest : Honest w_file s_file limit disk) (fuel : ℕ) (enough : limit + dim < fuel) where
  abbrev Resolved : Signature → Engram → Option (Outcome Payloads) → Type 0
  Resolved signature s o =
      (r : Outcome Payloads) × (o ≡ some r)
      × Right (expected (row_of w_file s_file s.layout) signature.0 signature.1) r.0
      × Valid w_file s_file r.1

  resolve-Resolved :
      (signature : Signature) (s : Engram)
      → s.closed ≡ false
      → Valid w_file s_file s
      → (p : Option (Signature × Result Payloads)) → Brought (row_of w_file s_file s.layout) p
      → Resolved signature s (resolve disk fuel signature p s)
  resolve-Resolved signature s opened v none b =
      let (r, ran, right, valid, l, p, c) =
        payloads-Answers w_file s_file disk limit honest fuel enough signature s opened v in
      (r, ran, right, valid)
  resolve-Resolved signature s opened v (some (sig, raise e)) b = (_, refl, b, v)
  resolve-Resolved signature s opened v (some (sig, ok p)) b =
      elim (Bool-cases (same_signature sig signature)) [
        | inl t ↦
            let ids : sig.0 ≡ signature.0 = ids_eq_sound sig.0 signature.0 (ground arith) in
            let masks : sig.1 ≡ signature.1 = masks_eq_sound sig.1 signature.1 (ground arith) in
            let row = row_of w_file s_file s.layout in
            let same : p ≡ expected row signature.0 signature.1 =
              b ∙ ap (λ a. expected row a sig.1) ids ∙ ap (expected row signature.0) masks in
            rw t (_, refl, same, dropped v)
        | inr f ↦
            let s' : Engram = record s {
              pending = none;
              stats = record s.stats { prefetch_unused = s.stats.prefetch_unused + 1 };
            } in
            let (r, ran, right, valid, l, q, c) =
              payloads-Answers w_file s_file disk limit honest fuel enough signature s' opened
                (unused v) in
            rw f (r, ran, right, valid)
      ]

  written-Gathers :
      (rows owned : List Value) (out : Output) (s : Engram) (signature : Signature)
      → Extents w_file s_file s.layout
      → validate rows owned s ≡ ok signature
      → fits signature out ≡ true
      → (o : Option (Outcome Payloads)) → Resolved signature s o
      → Gathers w_file s_file rows owned s (written out o)
  written-Gathers rows owned out s signature inside h t o ((raise e, s'), ran, right, v) =
      rw ran (_, refl, v, elim right [ inl a ↦ inl a | inr b ↦ inr (inl b) ])
  written-Gathers rows owned out s signature inside h t o ((ok p, s'), ran, right, v) =
      let checked = validate-Validated rows owned s signature h in
      let row = row_of w_file s_file s.layout in
      let (wide, narrow, weights, scales) =
        expected-gathered w_file s_file s.layout inside signature.0 signature.1 checked.ids in
      let count = length-expected row signature.0 signature.1 checked.lengths in
      let full : length out.weight ≡ length signature.0 * dim = ground arith in
      let full' : length out.scale ≡ length signature.0 * scale_bytes = ground arith in
      let (a, b) =
        write-concat (expected row signature.0 signature.1) out wide narrow
          (omega (arith, full, count)) (omega (arith, full', count)) in
      rw (ran, right) (_, refl, v, (signature, h, a ∙ weights, b ∙ scales))

  -- Where the calls read what the files hold and no signal interrupts them from the time `limit`
  -- on, `gather_into` of a valid object ends for fuel above `limit`
  -- and a row of weights, whether a prefetch is pending, for these rows or others, or not. If it
  -- returns, the rows and the mask were valid, and the storage holds the weights and the scales of
  -- the rows in their order, zeros where the mask is not set. If it raises, it is an `OSError` or
  -- a `ValueError`, or a `RuntimeError` of a closed object. Either way the object stays valid.
  pub gather_into-Gathered :
      (rows owned : List Value) (out : Output) (s : Engram)
      → Valid w_file s_file s
      → Gathers w_file s_file rows owned s (gather_into disk fuel rows owned out s)
  unfolding gather_into
  gather_into-Gathered rows owned out s v = elim (Result-cases (validate rows owned s)) [
    | inr (e, h) ↦ rw h (_, refl, v, validate-raise rows owned s e h)
    | inl (signature, h) ↦ elim (Bool-cases (fits signature out)) [
      | inr f ↦ rw (h, gather_of, f) (_, refl, v, inr (inl refl))
      | inl t ↦
          let checked = validate-Validated rows owned s signature h in
          rw (h, gather_of, t)
            (written-Gathers rows owned out s signature v.inside h t
              (resolve disk fuel signature s.pending s)
              (resolve-Resolved signature s checked.opened v s.pending v.brought))
    ]
  ]
