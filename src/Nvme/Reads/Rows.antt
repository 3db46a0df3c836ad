-- ===== src/Nvme/Reads/Rows.antt =====
-- `EngramRows._read` of experiments/dsv41_nvme/engram_rows.py: its loop ends, and with what.
use vllm_exl.Prelude.{
  ℕ, zero, suc, ◌+◌, ◌-◌, ◌≤◌, ◌<◌, ◌≡◌, ◌≢◌, refl, ap, ◌∙◌, true, Option, some, [], ◌∷◌, ltb,
  Result, ok, raise, Error, os_error, length, arith, Bool-cases, inl, inr, ltb→lt, ◌⊎◌,
}
use vllm_exl.Nvme.Reads.Defs.{
  Bytes, Pread, Answer, signal, failure, chunk, zeros, splice, extract, read_rest, read_row,
}
use vllm_exl.Nvme.Reads.Filled.{
  Filled, zeros-Filled, Filled-extract, Faithful, Settles, Serves, chunk-Filled,
}

-- what a read that ends has: the file's bytes, or an `OSError`
abbrev pub Read : Bytes → ℕ → ℕ → Result Bytes → Type 0
Read file offset size (ok data_) = data_ ≡ extract file offset size
Read file offset size (raise e) = e ≡ os_error

abbrev pub Anywhere : ℕ → Type 0
Anywhere offset = Unit

Read-ok :
    (file : Bytes) (offset size : ℕ) (r : Result Bytes)
    → Read file offset size r
    → ((e : Error) → r ≢ raise e)
    → r ≡ ok (extract file offset size)
Read-ok file offset size (ok a) h k = ap ok h
Read-ok file offset size (raise e) h k = absurd (k e refl)

-- the same, where `Fails` follows from an `OSError`
abbrev Ends : Type 0 → Bytes → ℕ → ℕ → Option (Result Bytes) → Type 0
Ends Fails file offset size o =
    (r : Result Bytes) × (o ≡ some r)
    × Read file offset size r
    × ((e : Error) → r ≡ raise e → Fails)

module _ (file : Bytes) (pread : Pread) (faithful : Faithful Anywhere file pread) (limit : ℕ)
    (settles : Settles limit pread) (Fails : Type 0) (bound : ℕ)
    (failed : (offset size time : ℕ)
      → 0 < size
      → offset < bound
      → (pread offset size time ≡ failure) ⊎ (pread offset size time ≡ chunk [])
      → Fails) where
  -- one call, where the rounds after it end
  read_rest-round :
      (fuel time offset size got : ℕ) (buffer : Bytes)
      → ltb got size ≡ true
      → offset + size ≤ bound
      → Filled file offset size got buffer
      → ((got' : ℕ) (buffer' : Bytes)
          → Filled file offset size got' buffer'
          → limit - suc time + (size - got') < limit - time + (size - got)
          → Ends Fails file offset size (read_rest pread fuel (suc time) offset size got' buffer'))
      → (a : Answer) → pread (offset + got) (size - got) time ≡ a
      → Ends Fails file offset size (read_rest pread (suc fuel) time offset size got buffer)
  unfolding read_rest
  read_rest-round fuel time offset size got buffer t inside h next signal m =
      let early : time < limit = elim (Bool-cases (ltb time limit)) [
        | inl e ↦ ltb→lt time limit e
        | inr l ↦ absurd (settles (offset + got) (size - got) time (ground arith) m)
      ] in
      rw (read_rest, t, m) (next got buffer h (omega arith))
  read_rest-round fuel time offset size got buffer t inside h next failure m =
      let below : got < size = ltb→lt got size t in
      let f = failed (offset + got) (size - got) time (omega arith) (omega arith) (inl m) in
      rw (read_rest, t, m) (_, refl, refl, λ e h. f)
  read_rest-round fuel time offset size got buffer t inside h next (chunk []) m =
      let below : got < size = ltb→lt got size t in
      let f = failed (offset + got) (size - got) time (omega arith) (omega arith) (inr m) in
      rw (read_rest, t, m) (_, refl, refl, λ e h. f)
  read_rest-round fuel time offset size got buffer t inside h next (chunk (b ∷ bs)) m =
      let below : got < size = ltb→lt got size t in
      let more =
        chunk-Filled Anywhere file pread faithful offset size got (size - got) time buffer (b ∷ bs)
          h tt (omega arith) m in
      rw (read_rest, t, m)
        (next (got + suc (length bs)) (splice buffer got (b ∷ bs)) more (omega arith))

  read_rest-Read :
      (fuel time offset size got : ℕ) (buffer : Bytes)
      → Filled file offset size got buffer
      → offset + size ≤ bound
      → limit - time + (size - got) < fuel
      → Ends Fails file offset size (read_rest pread fuel time offset size got buffer)
  unfolding read_rest
  read_rest-Read zero time offset size got buffer h inside enough = absurd (omega arith)
  read_rest-Read (suc fuel) time offset size got buffer h inside enough =
      elim (Bool-cases (ltb got size)) [
        | inr f ↦
            let all : size ≤ got = ground arith in
            rw (read_rest, f)
              (
                _,
                refl,
                Filled-extract file offset size got buffer h all,
                λ e k. absurd (ground arith),
              )
        | inl t ↦
            read_rest-round fuel time offset size got buffer t inside h
              (λ got' buffer' h' less.
                read_rest-Read fuel (suc time) offset size got' buffer' h' inside (omega arith))
              (pread (offset + got) (size - got) time) refl
      ]

module _ (file : Bytes) (pread : Pread) (faithful : Faithful Anywhere file pread) (limit : ℕ)
    (settles : Settles limit pread) where
  -- Where the calls read what the file holds and signals interrupt none of them from the time
  -- `limit` on, the read of a row ends for fuel above `limit + size`: it returns the file's bytes
  -- at the offset, as many as were asked for if the file has them, or it raises an `OSError`.
  pub read_row-Read :
      (fuel offset size : ℕ)
      → limit + size < fuel
      → (r : Result Bytes) × (read_row pread fuel offset size ≡ some r) × Read file offset size r
  unfolding read_row
  read_row-Read fuel offset size enough =
      let (r, ran, read, f) =
        read_rest-Read file pread faithful limit settles Unit (offset + size) (λ o s t p q h. tt)
          fuel 0 offset size 0 (zeros size) (zeros-Filled file offset size) (omega arith)
          (omega arith) in
      (r, ran, read)

  -- Where the calls read what the file holds, never fail and read something wherever the file has
  -- it, and signals interrupt none of them from the time `limit` on, the read of a row that lies in
  -- the file returns its bytes, for fuel above `limit + size`.
  pub read_row-extract :
      (fuel offset size : ℕ)
      → limit + size < fuel
      → Serves file pread
      → offset + size ≤ length file
      → read_row pread fuel offset size ≡ some (ok (extract file offset size))
  unfolding read_row
  read_row-extract fuel offset size enough serves inside =
      let failed : (o s t : ℕ)
          → 0 < s
          → o < length file
          → (pread o s t ≡ failure) ⊎ (pread o s t ≡ chunk [])
          → ⊥ =
        λ o s t p q h. elim h [ inl x ↦ serves.0 o s t x | inr x ↦ serves.1 o s t p q x ] in
      let (r, ran, read, f) =
        read_rest-Read file pread faithful limit settles ⊥ (length file) failed fuel 0 offset size 0
          (zeros size) (zeros-Filled file offset size) inside (omega arith) in
      ran ∙ ap some (Read-ok file offset size r read f)
