-- ===== src/Nvme/Engram/Fetch.antt =====
-- What `_fetch` of experiments/dsv41_nvme/engram_rows.py reads of the tables.
use vllm_exl.Prelude.{
  ℕ, zero, suc, ◌+◌, ◌*◌, ◌≤◌, ◌<◌, ◌≡◌, refl, ap, ◌∙◌, sym, Option, some, List, [], ◌∷◌, ◌++◌,
  length, take, drop, length-drop, arith, inl, inr, ◌⊎◌, Result, ok, raise, os_error, value_error,
  if-both, not,
}
use vllm_exl.Nvme.Reads.Defs.{Bytes, extract, read_row}
use vllm_exl.Nvme.Reads.Filled.{Faithful, Settles}
use vllm_exl.Nvme.Reads.Rows.{Read, Anywhere, read_row-Read}
use vllm_exl.Nvme.Engram.Defs.{
  Disk, Layout, dim, scale_bytes, after, read_pair, read_batch, batches, read_batches, fetch,
  fetch_missing,
}
use vllm_exl.Nvme.Engram.Cached.{rows_of}

-- a row of the tables in the files
abbrev pub row_of : Bytes → Bytes → Layout → ℕ → Bytes
row_of w_file s_file l k =
    extract w_file (l.w_offset + k * dim) dim
    ++ extract s_file (l.s_offset + k * scale_bytes) scale_bytes

-- the calls read what the files hold, and no signal interrupts them from the time `limit` on
pub record Honest (w_file s_file : Bytes) (limit : ℕ) (disk : Disk) : Type 0 where
  pub weights : Faithful Anywhere w_file disk.weights
  pub scales : Faithful Anywhere s_file disk.scales
  pub weights_settle : Settles limit disk.weights
  pub scales_settle : Settles limit disk.scales

-- a step that ends: with what it should return, or with an exception of the disk
abbrev pub Right : {A : Type 0} → A → Result A → Type 0
Right a (ok b) = b ≡ a
Right a (raise e) = (e ≡ os_error) ⊎ (e ≡ value_error)

abbrev pub Ends : {A : Type 0} → A → Option (Result A) → Type 0
Ends {A = A} a o = (r : Result A) × (o ≡ some r) × Right a r

-- one step after the other
after-Ends :
    {A B : Type 0} (a : A) (b : B) (o : Option (Result A)) (f : A → Option (Result B))
    → Ends a o
    → Ends b (f a)
    → Ends b (after o f)
after-Ends a b o f (ok a', ran, right) h = rw (ran, ap f right) h
after-Ends a b o f (raise e, ran, right) h = rw ran (raise e, refl, right)

module _ (w_file s_file : Bytes) (limit : ℕ) (disk : Disk)
    (honest : Honest w_file s_file limit disk) (fuel : ℕ) (enough : limit + dim < fuel)
    (l : Layout) where
  abbrev row : ℕ → Bytes
  row = row_of w_file s_file l

  Read-Ends :
      (file : Bytes) (offset size : ℕ) (o : Option (Result Bytes))
      → (r : Result Bytes) × (o ≡ some r) × Read file offset size r
      → Ends (extract file offset size) o
  Read-Ends file offset size o (ok d, ran, read) = (ok d, ran, read)
  Read-Ends file offset size o (raise e, ran, read) = (raise e, ran, inl read)

  read_pair-Ends : (k : ℕ) → Ends (row k) (read_pair disk fuel l k)
  unfolding read_pair
  read_pair-Ends k =
      after-Ends _ (row k) (read_row disk.weights fuel (l.w_offset + k * dim) dim) _
        (Read-Ends w_file (l.w_offset + k * dim) dim _ (
          read_row-Read w_file disk.weights honest.weights limit honest.weights_settle fuel
            (l.w_offset + k * dim) dim enough))
        (after-Ends _ (row k) (read_row disk.scales fuel (l.s_offset + k * scale_bytes) scale_bytes)
          _
          (Read-Ends s_file (l.s_offset + k * scale_bytes) scale_bytes _ (
            read_row-Read s_file disk.scales honest.scales limit honest.scales_settle fuel
              (l.s_offset + k * scale_bytes) scale_bytes (omega arith)))
          (_, refl, refl))

  read_batch-Ends : (ks : List ℕ) → Ends (rows_of row ks) (read_batch disk fuel l ks)
  unfolding read_batch
  read_batch-Ends [] = (_, refl, refl)
  read_batch-Ends (k ∷ ks) =
      after-Ends (row k) (rows_of row (k ∷ ks)) (read_pair disk fuel l k) _ (read_pair-Ends k) (
        after-Ends (rows_of row ks) (rows_of row (k ∷ ks)) (read_batch disk fuel l ks) _
          (read_batch-Ends ks) (_, refl, refl))

  rows-append : (ks js : List ℕ) → rows_of row (ks ++ js) ≡ rows_of row ks ++ rows_of row js
  rows-append [] js = refl
  rows-append (k ∷ ks) js = ap (λ t. (k, row k) ∷ t) (rows-append ks js)

  take-drop : (n : ℕ) (ks : List ℕ) → take n ks ++ drop n ks ≡ ks
  take-drop zero ks = refl
  take-drop (suc n) [] = refl
  take-drop (suc n) (k ∷ ks) = ap (λ t. k ∷ t) (take-drop n ks)

  read_batches-Ends :
      (n : ℕ) (ks : List ℕ)
      → length ks ≤ n
      → Ends (rows_of row ks) (read_batches disk fuel l (batches n ks))
  unfolding read_batches batches
  read_batches-Ends zero [] h = (_, refl, refl)
  read_batches-Ends zero (k ∷ ks) h = absurd (omega arith)
  read_batches-Ends (suc n) [] h = (_, refl, refl)
  read_batches-Ends (suc n) (k ∷ ks) h =
      let first = take 16 (k ∷ ks) in
      let later = drop 16 (k ∷ ks) in
      let both : rows_of row first ++ rows_of row later ≡ rows_of row (k ∷ ks) =
        sym (rows-append first later) ∙ ap (rows_of row) (take-drop 16 (k ∷ ks)) in
      after-Ends (rows_of row first) (rows_of row (k ∷ ks)) (read_batch disk fuel l first) _
        (read_batch-Ends first)
        (after-Ends (rows_of row later) (rows_of row (k ∷ ks))
          (read_batches disk fuel l (batches n later)) _
          (read_batches-Ends n later (let e = length-drop 16 (k ∷ ks) in omega (arith, e, h)))
          (_, refl, both))

  fetch-Ends : (ks : List ℕ) → Ends (rows_of row ks) (fetch disk fuel l ks)
  unfolding fetch
  fetch-Ends ks =
      if-both (Ends (rows_of row ks)) (not disk.same) _ _ (_, refl, inr refl)
        (after-Ends (rows_of row ks) (rows_of row ks)
          (read_batches disk fuel l (batches (length ks) ks)) _
          (read_batches-Ends (length ks) ks (omega arith))
          (if-both (Ends (rows_of row ks)) (not disk.unchanged) _ _ (_, refl, inr refl)
            (_, refl, refl)))

  pub fetch_missing-Ends : (ks : List ℕ) → Ends (rows_of row ks) (fetch_missing disk fuel l ks)
  fetch_missing-Ends [] = (_, refl, refl)
  fetch_missing-Ends (k ∷ ks) = fetch-Ends (k ∷ ks)
