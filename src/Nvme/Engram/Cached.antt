-- ===== src/Nvme/Engram/Cached.antt =====
-- The cached rows against a table, under the scan and the stores of Store.
use vllm_exl.Prelude.{
  ℕ, suc, ◌≤◌, ◌<◌, ◌≡◌, refl, ap, ◌∙◌, sym, ◌==◌, Bool, true, false, ◌||◌, some, List, [], ◌∷◌,
  leb, length, length-append, length-drop, drop, All, All-append, arith, Bool-cases, Option-cases,
  inl, inr,
}
use vllm_exl.Nvme.Reads.Defs.{Bytes}
use vllm_exl.Nvme.Engram.Store.{
  Table, lookup, remove, put, move_to_end, Scan, scan, Counted, keep, keep_all,
}
use vllm_exl.Prelude.Keys.{member}

abbrev pub keys_of : Table → List ℕ
keys_of [] = []
keys_of ((j, d) ∷ c) = j ∷ keys_of c

or-missing :
    (x a b r : Bool) → (x || r) ≡ true → (r ≡ true → (a || b) ≡ true) → (a || (x || b)) ≡ true
or-missing x true b r h k = refl
or-missing true false b r h k = refl
or-missing false false b r h k = k h

or-payload :
    (x a b r : Bool) → (x || r) ≡ true → (r ≡ true → (a || b) ≡ true) → ((x || a) || b) ≡ true
or-payload true a b r h k = refl
or-payload false a b r h k = k h

module _ (row : ℕ → Bytes) where
  -- every row stands under its key
  abbrev pub Sound : Table → Type 0
  Sound c = All (λ p. p.1 ≡ row p.0) c

  pub lookup-Sound :
      (k : ℕ) (c : Table) → Sound c → member k (keys_of c) ≡ true → lookup k c ≡ some (row k)
  unfolding lookup member
  lookup-Sound k [] h m = absurd (ground arith)
  lookup-Sound k ((j, d) ∷ c) h m = elim (Bool-cases (k == j)) [
    | inl t ↦ let same : k ≡ j = ground arith in rw t (ap some (h.0 ∙ ap row (sym same)))
    | inr f ↦
        let there : member k (keys_of c) ≡ true = ground arith in rw f (lookup-Sound k c h.1 there)
  ]

  lookup-some : (k : ℕ) (c : Table) (d : Bytes) → Sound c → lookup k c ≡ some d → d ≡ row k
  unfolding lookup
  lookup-some k [] d h m = absurd (ground arith)
  lookup-some k ((j, e) ∷ c) d h m = elim (Bool-cases (k == j)) [
    | inl t ↦
        let same : k ≡ j = ground arith in
        let got : e ≡ d = ground arith in sym got ∙ h.0 ∙ ap row (sym same)
    | inr f ↦ let there : lookup k c ≡ some d = ground arith in lookup-some k c d h.1 there
  ]

  remove-Sound : (k : ℕ) (c : Table) → Sound c → Sound (remove k c)
  unfolding remove
  remove-Sound k [] h = tt
  remove-Sound k ((j, d) ∷ c) h = elim (Bool-cases (k == j)) [
    | inl t ↦ rw t h.1
    | inr f ↦ rw f (h.0, remove-Sound k c h.1)
  ]

  put-Sound : (k : ℕ) (c : Table) → Sound c → Sound (put k (row k) c)
  unfolding put
  put-Sound k [] h = (refl, tt)
  put-Sound k ((j, d) ∷ c) h = elim (Bool-cases (k == j)) [
    | inl t ↦ let same : k ≡ j = ground arith in rw t (ap row same, h.1)
    | inr f ↦ rw f (h.0, put-Sound k c h.1)
  ]

  drop-Sound : (c : Table) → Sound c → Sound (drop 1 c)
  drop-Sound [] h = h
  drop-Sound (p ∷ c) h = h.1

  -- rows that a disk holds
  abbrev pub rows_of : List ℕ → Table
  rows_of [] = []
  rows_of (k ∷ ks) = (k, row k) ∷ rows_of ks

  keep-Sound : (capacity k : ℕ) (c : Counted) → Sound c.0 → Sound (keep capacity k (row k) c).0
  unfolding keep
  keep-Sound capacity k (c, n) h = elim (Bool-cases (leb capacity (length c))) [
    | inl t ↦ rw t (put-Sound k (drop 1 c) (drop-Sound c h))
    | inr f ↦ rw f (put-Sound k c h)
  ]

  pub keep_all-Sound :
      (capacity : ℕ) (ks : List ℕ) (c : Counted)
      → Sound c.0
      → Sound (keep_all capacity (rows_of ks) c).0
  unfolding keep_all
  keep_all-Sound capacity [] c h = h
  keep_all-Sound capacity (k ∷ ks) c h =
      keep_all-Sound capacity ks (keep capacity k (row k) c) (keep-Sound capacity k c h)

  -- the scan of the keys
  pub record Scanned (ks : List ℕ) (c : Table) (s : Scan) : Type 0 where
    pub payloads : Sound s.payloads
    pub cache : Sound s.cache
    pub size : length s.cache ≡ length c
    pub covered :
        (k : ℕ) → member k ks ≡ true → (member k (keys_of s.payloads) || member k s.missing) ≡ true

  length-remove :
      (k : ℕ) (c : Table) (d : Bytes) → lookup k c ≡ some d → suc (length (remove k c)) ≡ length c
  unfolding lookup remove
  length-remove k [] d m = absurd (ground arith)
  length-remove k ((j, e) ∷ c) d m = elim (Bool-cases (k == j)) [
    | inl t ↦ rw t refl
    | inr f ↦
        let there : lookup k c ≡ some d = ground arith in rw f (ap suc (length-remove k c d there))
  ]

  pub scan-Scanned : (ks : List ℕ) (c : Table) → Sound c → Scanned ks c (scan ks c)
  unfolding scan member
  scan-Scanned [] c h = record {
    payloads = tt;
    cache = h;
    size = refl;
    covered = λ k m. absurd (ground arith);
  }
  scan-Scanned (k ∷ ks) c h = elim (Option-cases (lookup k c)) [
    | inl n ↦
        let rest = scan-Scanned ks c h in
        rw (scan, n)
          (record {
            payloads = rest.payloads;
            cache = rest.cache;
            size = rest.size;
            covered = λ j m. or-missing (j == k) _ _ _ m (rest.covered j);
          })
    | inr (d, n) ↦
        let good : d ≡ row k = lookup-some k c d h n in
        let moved = All-append _ (remove k c) ((k, d) ∷ []) (remove-Sound k c h) (good, tt) in
        let rest = scan-Scanned ks (move_to_end k d c) moved in
        rw (scan, n)
          (record {
            payloads = (good, rest.payloads);
            cache = rest.cache;
            size =
                omega (
                  arith,
                  rest.size,
                  length-append (remove k c) ((k, d) ∷ []),
                  length-remove k c d n,
                );
            covered = λ j m. or-payload (j == k) _ _ _ m (rest.covered j);
          })
  ]

length-put : (k : ℕ) (d : Bytes) (c : Table) → length (put k d c) ≤ suc (length c)
unfolding put
length-put k d [] = omega arith
length-put k d ((j, e) ∷ c) = elim (Bool-cases (k == j)) [
  | inl t ↦ rw t (omega arith)
  | inr f ↦ rw f (omega (arith, length-put k d c))
]

-- within the capacity
abbrev pub Within : ℕ → Counted → Type 0
Within capacity c = length c.0 ≤ capacity

keep-Within :
    (capacity k : ℕ) (d : Bytes) (c : Counted)
    → 0 < capacity
    → Within capacity c
    → Within capacity (keep capacity k d c)
unfolding keep
keep-Within capacity k d (c, n) p h = elim (Bool-cases (leb capacity (length c))) [
  | inl t ↦
      let put_length = length-put k d (drop 1 c) in
      let drop_length = length-drop 1 c in rw t (omega (arith, put_length, drop_length))
  | inr f ↦
      let below : length c < capacity = ground arith in
      let put_length = length-put k d c in rw f (omega (arith, put_length))
]

pub keep_all-Within :
    (capacity : ℕ) (rows : Table) (c : Counted)
    → 0 < capacity
    → Within capacity c
    → Within capacity (keep_all capacity rows c)
unfolding keep_all
keep_all-Within capacity [] c p h = h
keep_all-Within capacity ((k, d) ∷ rows) c p h =
    keep_all-Within capacity rows (keep capacity k d c) p (keep-Within capacity k d c p h)
