-- ===== src/Nvme/Bank/Tiling.antt =====
-- What the constructor of `ExpertStore`, experiments/dsv41_nvme/expert_store.py, has made sure of.
use vllm_exl.Prelude.{
  ℕ, ◌+◌, ◌%◌, ◌≤◌, ◌<◌, ◌≡◌, ◌==◌, Bool, false, ◌&&◌, ◌||◌, not, List, [], ◌∷◌, ltb, leb,
  if◌then◌else◌, arith, Bool-cases, ltb→lt, leb→le, Option-cases, inl, inr, ok, raise, raise_if,
  value_error, runtime_error, bind-ok, raise_if-ok,
}
use mathlib.Core.Path.{subst}
use vllm_exl.Nvme.Reads.Defs.{Extent}
use vllm_exl.Nvme.Bank.Defs.{
  Tensor, Tensors, Record, width, validate_tensors, sort_tensors, sort_records, bad_tensor,
  check_tensors, align, check_record, check_bounds, check_contents, bad_bounds, check_records,
  is_empty, check_end, check_bank, accept,
}

-- tensors one after the other from `end` on, each on a multiple of 256, inside `bytes`
abbrev pub Laid : ℕ → ℕ → Tensors → Type 0
Laid bytes end [] = Unit
Laid bytes end ((n, t) ∷ ts) =
    (end ≤ t.offset)
    × (t.offset % 256 ≡ 0)
    × (t.offset + t.bytes ≤ bytes)
    × Laid bytes (t.offset + t.bytes) ts

-- records one after the other from `end` to `total` without a gap, of whole pages, whose tensors
-- passed the test of their shapes and are laid out inside
abbrev pub Tiles : ℕ → ℕ → List Record → ℕ → Type 0
Tiles max_record_bytes end [] total = end ≡ total
Tiles max_record_bytes end (r ∷ rs) total =
    (r.extent.offset ≡ end)
    × (r.extent.bytes % 4096 ≡ 0)
    × (0 < r.extent.bytes)
    × (r.extent.bytes ≤ max_record_bytes)
    × (r.layer < 40)
    × (r.expert < 384)
    × (validate_tensors r.tensors ≡ ok tt)
    × Laid r.extent.bytes 0 (sort_tensors r.tensors)
    × Tiles max_record_bytes (end + r.extent.bytes) rs total

bad_tensor-false :
    (bytes end : ℕ) (t : Tensor)
    → bad_tensor bytes end t ≡ false
    → (end ≤ t.offset) × (t.offset % 256 ≡ 0) × (t.offset + t.bytes ≤ bytes)
bad_tensor-false bytes end t h = elim (Option-cases (width t.dtype)) [
  | inl n ↦ absurd (ground arith)
  | inr (w, n) ↦ elim (Bool-cases (ltb t.offset end)) [
    | inl a ↦ absurd (ground arith)
    | inr a ↦ elim (Bool-cases (t.offset % 256 == 0)) [
      | inr b ↦ absurd (ground arith)
      | inl b ↦ elim (Bool-cases (ltb bytes (t.offset + t.bytes))) [
        | inl c ↦ absurd (ground arith)
        | inr c ↦ (ground arith, ground arith, ground arith)
      ]
    ]
  ]
]

check_tensors-Laid :
    (bytes end : ℕ) (ts : Tensors) (u : Unit {0})
    → check_tensors bytes end ts ≡ ok u
    → Laid bytes end ts
unfolding check_tensors
check_tensors-Laid bytes end [] u h = tt
check_tensors-Laid bytes end ((n, t) ∷ ts) u h = elim (Bool-cases (bad_tensor bytes end t)) [
  | inl b ↦ absurd (ground arith)
  | inr b ↦
      let (x, y, z) = bad_tensor-false bytes end t b in
      let rest : check_tensors bytes (t.offset + t.bytes) ts ≡ ok u =
        subst
          (λ c.
            (if c then raise value_error else check_tensors bytes (t.offset + t.bytes) ts) ≡ ok u)
          b h in
      (x, y, z, check_tensors-Laid bytes (t.offset + t.bytes) ts u rest)
]

bad_bounds-false :
    (most end : ℕ) (x : Extent)
    → bad_bounds most end x ≡ false
    → (x.offset ≡ end) × (x.bytes % 4096 ≡ 0) × (0 < x.bytes) × (x.bytes ≤ most)
bad_bounds-false most end x h = elim (Bool-cases (x.offset == end)) [
  | inr a ↦ absurd (ground arith)
  | inl a ↦ elim (Bool-cases (x.bytes % align == 0)) [
    | inr b ↦ absurd (ground arith)
    | inl b ↦ elim (Bool-cases (ltb 0 x.bytes)) [
      | inr c ↦ absurd (ground arith)
      | inl c ↦ elim (Bool-cases (leb x.bytes most)) [
        | inr d ↦ absurd (ground arith)
        | inl d ↦ (ground arith, ground arith, ltb→lt 0 x.bytes c, leb→le x.bytes most d)
      ]
    ]
  ]
]

identity-range :
    (layer expert : ℕ) → (leb 40 layer || leb 384 expert) ≡ false → (layer < 40) × (expert < 384)
identity-range layer expert h = (ground arith, ground arith)

check_records-Tiles :
    (max_record_bytes end : ℕ) (rs : List Record) (total : ℕ)
    → check_records max_record_bytes end rs ≡ ok total
    → Tiles max_record_bytes end rs total
unfolding check_records
check_records-Tiles max_record_bytes end [] total h = ground arith
check_records-Tiles max_record_bytes end (r ∷ rs) total h =
    let (u, h0, rest) =
      bind-ok (check_record max_record_bytes end r)
        (λ v. check_records max_record_bytes (end + r.extent.bytes) rs) total h in
    let (a, h1) =
      raise_if-ok (leb 40 r.layer || leb 384 r.expert) value_error
        (check_bounds max_record_bytes end r) u h0 in
    let (b, h2) =
      raise_if-ok (bad_bounds max_record_bytes end r.extent) value_error (check_contents r) u h1 in
    let (v, valid, laid) =
      bind-ok (validate_tensors r.tensors)
        (λ w. check_tensors r.extent.bytes 0 (sort_tensors r.tensors)) u h2 in
    let (same, pages, some_bytes, few) = bad_bounds-false max_record_bytes end r.extent b in
    let (layer, expert) = identity-range r.layer r.expert a in
    (
      same,
      pages,
      some_bytes,
      few,
      layer,
      expert,
      valid,
      check_tensors-Laid r.extent.bytes 0 (sort_tensors r.tensors) u laid,
      check_records-Tiles max_record_bytes (end + r.extent.bytes) rs total rest,
    )

-- A manifest that the constructor accepts has records that, in the order of their offsets, follow
-- one another without a gap from 0 to the size of the file, which is the number of bytes that the
-- manifest says. Each is of whole pages, not empty, within the maximum, and of an identity in
-- range; its tensors pass `validate_tensors`, and lie inside it, one after the other without an
-- overlap, each on a multiple of 256.
pub accept-Tiles :
    (digest identity : Bool) (max_record_bytes : ℕ) (records : List Record)
    (bank_bytes file_size : ℕ) (direct available : Bool)
    → accept digest identity max_record_bytes records bank_bytes file_size direct available ≡ ok tt
    → (bank_bytes ≡ file_size) × Tiles max_record_bytes 0 (sort_records records) file_size
unfolding accept
accept-Tiles digest identity max_record_bytes records bank_bytes file_size direct available h =
    let (a, h1) =
      raise_if-ok (not (digest && identity)) value_error
        (check_bank max_record_bytes records bank_bytes file_size direct available) tt h in
    let (end, checked, h2) =
      bind-ok (check_records max_record_bytes 0 (sort_records records))
        (check_end records bank_bytes file_size direct available) tt h1 in
    let (c, h3) =
      raise_if-ok (is_empty records || not (end == bank_bytes) || not (end == file_size))
        value_error (raise_if (direct && not available) runtime_error) tt h2 in
    let ends : end ≡ file_size = ground arith in
    let same : bank_bytes ≡ file_size = ground arith in
    let tiles = check_records-Tiles max_record_bytes 0 (sort_records records) end checked in
    (same, subst (Tiles max_record_bytes 0 (sort_records records)) ends tiles)
