-- ===== src/Nvme/Reads/Records.antt =====
-- The loop over a record of the bank, in `ExpertStore.read` of
-- experiments/dsv41_nvme/expert_store.py and `AsyncExpertStore._fetch` of async_store.py.
use vllm_exl.Prelude.{
  ℕ, zero, suc, ◌+◌, ◌-◌, ◌≤◌, ◌<◌, ◌%◌, ◌≡◌, refl, Bool, true, false, Option, some, [], ◌∷◌, ltb,
  not, ◌==◌, Result, ok, raise, os_error, interrupted, length, arith, Bool-cases, inl, inr, ◌⊎◌,
  ltb→lt, if-both,
}
use vllm_exl.Nvme.Reads.Defs.{
  Bytes, Pread, Answer, signal, failure, chunk, zeros, splice, extract, request, misaligned, fill,
  Extent, Store, Reading, started, filled, begin_read,
}
use vllm_exl.Nvme.Reads.Filled.{
  Filled, zeros-Filled, Filled-extract, Faithful, Settles, chunk-Filled,
}

-- what a loop that ends has: the file's bytes, or an exception
abbrev pub Got : Bytes → ℕ → ℕ → Result (Bytes × ℕ) → Type 0
Got file offset size (ok (buffer, got)) = (buffer ≡ extract file offset size) × (got ≡ size)
Got file offset size (raise e) = (e ≡ os_error) ⊎ (e ≡ interrupted)

abbrev Ends : Bytes → ℕ → ℕ → Option (Result (Bytes × ℕ)) → Type 0
Ends file offset size o = (r : Result (Bytes × ℕ)) × (o ≡ some r) × Got file offset size r

-- a direct call stands on a page
abbrev pub OnPage : Bool → ℕ → Type 0
OnPage direct offset = direct ≡ true → offset % 4096 ≡ 0

request-le : (direct : Bool) (left : ℕ) → request direct left ≤ left
request-le true left = omega arith
request-le false left = omega arith

next-OnPage :
    (direct : Bool) (offset got size : ℕ)
    → OnPage direct offset
    → misaligned direct got size ≡ false
    → got < size
    → OnPage direct (offset + got)
next-OnPage false offset got size h m b = λ d. absurd (ground arith)
next-OnPage true offset got size h m b =
    let page : got % 4096 ≡ 0 = ground arith in λ d. omega (arith, h d)

module _ (file : Bytes) (pread : Pread) (cancel : ℕ → Bool) (direct : Bool)
    (faithful : Faithful (OnPage direct) file pread) (limit : ℕ) (settles : Settles limit pread)
    (offset size : ℕ) (page : OnPage direct offset) where
  -- one call, where the rounds after it end
  fill-round :
      (fuel time got : ℕ) (buffer : Bytes)
      → ltb got size ≡ true
      → cancel time ≡ false
      → Filled file offset size got buffer
      → OnPage direct (offset + got)
      → ((got' : ℕ) (buffer' : Bytes)
          → Filled file offset size got' buffer'
          → (got' < size → OnPage direct (offset + got'))
          → limit - (time + 2) + (size - got') < limit - time + (size - got)
          → Ends file offset size
              (fill pread cancel direct fuel (time + 2) offset size got' buffer'))
      → (a : Answer) → pread (offset + got) (request direct (size - got)) time ≡ a
      → Ends file offset size (fill pread cancel direct (suc fuel) time offset size got buffer)
  unfolding fill
  fill-round fuel time got buffer t c h here next signal m =
      let early : time < limit = elim (Bool-cases (ltb time limit)) [
        | inl e ↦ ltb→lt time limit e
        | inr l ↦
            absurd (settles (offset + got) (request direct (size - got)) time (ground arith) m)
      ] in
      elim (Bool-cases (cancel (suc time))) [
        | inl d ↦ rw (fill, t, c, m, d) (_, refl, inr refl)
        | inr d ↦ rw (fill, t, c, m, d) (next got buffer h (λ b. here) (omega arith))
      ]
  fill-round fuel time got buffer t c h here next failure m = rw (fill, t, c, m) (_, refl, inl refl)
  fill-round fuel time got buffer t c h here next (chunk []) m =
      rw (fill, t, c, m) (_, refl, inl refl)
  fill-round fuel time got buffer t c h here next (chunk (b ∷ bs)) m =
      let below : got < size = ltb→lt got size t in
      let more =
        chunk-Filled (OnPage direct) file pread faithful offset size got
          (request direct (size - got)) time buffer (b ∷ bs) h here (request-le direct (size - got))
          m in
      elim (Bool-cases (misaligned direct (got + suc (length bs)) size)) [
        | inl d ↦ rw (fill, t, c, m, d) (_, refl, inl refl)
        | inr d ↦
            rw (fill, t, c, m, d)
              (next (got + suc (length bs)) (splice buffer got (b ∷ bs)) more
                (next-OnPage direct offset (got + suc (length bs)) size page d) (omega arith))
      ]

  fill-Got :
      (fuel time got : ℕ) (buffer : Bytes)
      → Filled file offset size got buffer
      → (got < size → OnPage direct (offset + got))
      → limit - time + (size - got) < fuel
      → Ends file offset size (fill pread cancel direct fuel time offset size got buffer)
  unfolding fill
  fill-Got zero time got buffer h here enough = absurd (omega arith)
  fill-Got (suc fuel) time got buffer h here enough = elim (Bool-cases (ltb got size)) [
    | inr f ↦
        let all : size ≤ got = ground arith in
        rw (fill, f)
          (_, refl, (Filled-extract file offset size got buffer h all, omega (arith, h.within)))
    | inl t ↦ elim (Bool-cases (cancel time)) [
      | inl c ↦ rw (fill, t, c) (_, refl, inr refl)
      | inr c ↦
          fill-round fuel time got buffer t c h (here (ltb→lt got size t))
            (λ got' buffer' h' here' less.
              fill-Got fuel (time + 2) got' buffer' h' here' (omega arith))
            (pread (offset + got) (request direct (size - got)) time) refl
    ]
  ]

  fill-extract :
      (fuel : ℕ)
      → limit + size < fuel
      → Ends file offset size (fill pread cancel direct fuel 0 offset size 0 (zeros size))
  fill-extract fuel enough =
      fill-Got fuel 0 0 (zeros size) (zeros-Filled file offset size) (λ b d. omega (arith, page d))
        (omega arith)

-- what a read that ends has: the bytes that the digest is of and a count of one more active read,
-- or an exception and no more active reads
abbrev pub Begun : (Bytes → ℕ) → Bytes → Extent → Store → Reading → Type 0
Begun hash file x s (ok buffer, s') =
    (buffer ≡ extract file x.offset x.bytes)
    × (hash buffer ≡ x.sha256)
    × (s'.active_reads ≡ s.active_reads + 1)
    × (s'.reads ≡ s.reads + 1)
    × (s'.bytes_read ≡ s.bytes_read + x.bytes)
Begun hash file x s (raise e, s') = s'.active_reads ≡ s.active_reads

abbrev Ready : (Bytes → ℕ) → Bytes → Extent → Store → Option Reading → Type 0
Ready hash file x s o = (r : Reading) × (o ≡ some r) × Begun hash file x s r

filled-Ready :
    (hash : Bytes → ℕ) (file : Bytes) (cancelled : Bool) (x : Extent) (s : Store)
    (r : Result (Bytes × ℕ))
    → Got file x.offset x.bytes r
    → Ready hash file x s (filled hash cancelled x (started x s) (some r))
filled-Ready hash file cancelled x s (raise e) h = (_, refl, omega arith)
filled-Ready hash file cancelled x s (ok (buffer, got)) h =
    elim (Bool-cases (hash buffer == x.sha256)) [
      | inr f ↦ rw (f) (_, refl, omega arith)
      | inl t ↦ elim (Bool-cases cancelled) [
        | inl c ↦ rw (t, c) (_, refl, omega arith)
        | inr c ↦ rw (t, c) (_, refl, (h.0, ground arith, refl, refl, omega (arith, h.1)))
      ]
    ]

-- Where the calls at a page, or anywhere if the reads are buffered, read what the file holds, and
-- signals interrupt none of them from the time `limit` on, a read of a record that starts on a
-- page ends for fuel above `limit` and the record's bytes, whenever it is cancelled. If it
-- returns, it has exactly the record's bytes of the file, they have the record's digest, and one
-- more read is counted as active and as done; if it raises, as many reads are active as before.
pub begin_read-Begun :
    (file : Bytes) (pread : Pread) (hash : Bytes → ℕ) (cancel : ℕ → Bool)
    (before after direct : Bool)
    → Faithful (OnPage direct) file pread
    → (limit : ℕ) → Settles limit pread
    → (x : Extent) (s : Store) (fuel : ℕ) → OnPage direct x.offset
    → limit + x.bytes < fuel
    → (r : Reading) × (begin_read pread hash cancel before after direct fuel (some x) s ≡ some r)
      × Begun hash file x s r
unfolding begin_read
begin_read-Begun file pread hash cancel before after direct faithful limit settles x s fuel page
      enough =
    let (r, ran, got) =
      fill-extract file pread cancel direct faithful limit settles x.offset x.bytes page fuel
        enough in
    if-both (Ready hash file x s) (not s.opened) _ _ (_, refl, refl)
      (if-both (Ready hash file x s) before _ _ (_, refl, refl)
        (rw ran (filled-Ready hash file after x s r got)))
