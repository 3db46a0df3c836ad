-- ===== src/Nvme/Engram/Payloads.antt =====
-- `_payloads` of experiments/dsv41_nvme/engram_rows.py: what a request returns, and the cache that
-- it leaves.
use vllm_exl.Prelude.{
  ℕ, ◌+◌, ◌*◌, ◌≤◌, ◌<◌, ◌≡◌, refl, ◌==◌, Bool, true, false, ◌||◌, not, Option, none, some, List,
  [], ◌∷◌, length, arith, inr, Result, ok, raise, if-both, if-false,
}
use vllm_exl.Prelude.Keys.{member, distinct, or-true, or-skip, distinct-member}
use vllm_exl.Nvme.Reads.Defs.{Bytes}
use vllm_exl.Nvme.Engram.Store.{Table, Counted, Scan, scan}
use vllm_exl.Nvme.Engram.Defs.{
  Disk, Layout, Signature, Payloads, Engram, Outcome, dim, scale_bytes, owned_rows, add_all,
  assemble, served, fetched, payloads,
}
use vllm_exl.Nvme.Engram.Cached.{
  keys_of, Sound, lookup-Sound, rows_of, keep_all-Sound, Scanned, scan-Scanned, keep_all-Within,
}
use vllm_exl.Nvme.Engram.Fetch.{row_of, Honest, Right, fetch_missing-Ends}

-- the rows of the tables where the mask is set
unfoldable pub expected : (ℕ → Bytes) → List ℕ → List Bool → Payloads
expected row [] owned = []
expected row (r ∷ rs) [] = []
expected row (r ∷ rs) (true ∷ bs) = some (row r) ∷ expected row rs bs
expected row (r ∷ rs) (false ∷ bs) = none ∷ expected row rs bs

or-swap : (a b c : Bool) → (a || (b || c)) ≡ true → ((b || a) || c) ≡ true
or-swap true true c h = refl
or-swap true false c h = refl
or-swap false true c h = refl
or-swap false false c h = h

or-none : (a : Bool) → (a || false) ≡ true → a ≡ true
or-none true h = refl
or-none false h = absurd (ground arith)

module _ (row : ℕ → Bytes) where
  add_all-Sound : (ks : List ℕ) (p : Table) → Sound row p → Sound row (add_all (rows_of row ks) p)
  unfolding add_all
  add_all-Sound [] p h = h
  add_all-Sound (k ∷ ks) p h = add_all-Sound ks ((k, row k) ∷ p) (refl, h)

  add_all-member :
      (k : ℕ) (ks : List ℕ) (p : Table)
      → (member k (keys_of p) || member k ks) ≡ true
      → member k (keys_of (add_all (rows_of row ks) p)) ≡ true
  unfolding add_all member
  add_all-member k [] p h = or-none _ h
  add_all-member k (j ∷ js) p h =
      add_all-member k js ((j, row j) ∷ p) (or-swap (member k (keys_of p)) (k == j) (member k js) h)

  assemble-expected :
      (p : Table) (rs : List ℕ) (bs : List Bool)
      → Sound row p
      → ((k : ℕ) → member k (owned_rows rs bs) ≡ true → member k (keys_of p) ≡ true)
      → assemble p rs bs ≡ ok (expected row rs bs)
  unfolding assemble expected owned_rows member
  assemble-expected p [] bs h c = refl
  assemble-expected p (r ∷ rs) [] h c = refl
  assemble-expected p (r ∷ rs) (false ∷ bs) h c = rw (assemble-expected p rs bs h c) refl
  assemble-expected p (r ∷ rs) (true ∷ bs) h c =
      let here : (r == r) ≡ true = ground arith in
      let found = lookup-Sound row r p h (c r (or-true _ _ here)) in
      rw (assemble, found, assemble-expected p rs bs h (λ k m. c k (or-skip _ _ m))) refl

Right-ok : {A : Type 0} (a : A) (r : Result A) → r ≡ ok a → Right a r
Right-ok a r h = rw h refl

-- what a prefetch that is pending brought
abbrev pub Brought : (ℕ → Bytes) → Option (Signature × Result Payloads) → Type 0
Brought row none = Unit
Brought row (some (signature, r)) = Right (expected row signature.0 signature.1) r

-- the tables lie in their files, as the constructor tests
pub record Extents (w_file s_file : Bytes) (l : Layout) : Type 0 where
  pub weights : l.w_offset + l.rows * dim ≤ length w_file
  pub scales : l.s_offset + l.rows * scale_bytes ≤ length s_file

module _ (w_file s_file : Bytes) where
  -- what holds of the object: the tables lie in their files, every cached row is the table's, they are within the capacity, and
  -- so is their greatest number so far
  pub record Valid (s : Engram) : Type 0 where
    pub inside : Extents w_file s_file s.layout
    pub sound : Sound (row_of w_file s_file s.layout) s.cache
    pub positive : 0 < s.layout.capacity
    pub within : length s.cache ≤ s.layout.capacity
    pub peak : s.stats.peak_cached_rows ≤ s.layout.capacity
    pub brought : Brought (row_of w_file s_file s.layout) s.pending

  -- a call that ends: the answer, and an object that is still valid
  abbrev pub Answers : {A : Type 0} → A → Engram → Option (Outcome A) → Type 0
  Answers {A = A} a s o =
      (r : Outcome A) × (o ≡ some r)
      × Right a r.0
      × Valid r.1
      × (r.1.layout ≡ s.layout)
      × (r.1.pending ≡ s.pending)
      × (r.1.closed ≡ s.closed)

  served-Answers :
      (signature : Signature) (s : Engram)
      → Valid s
      → (found : Scan)
      → let row = row_of w_file s_file s.layout in
        let keys = distinct [] (owned_rows signature.0 signature.1) in
        Scanned row keys s.cache found
        → Answers
            (expected row signature.0 signature.1)
            s
            (some (served signature keys found (rows_of row found.missing) s))
  unfolding member
  served-Answers signature s v found h =
      let row = row_of w_file s_file s.layout in
      let keys = distinct [] (owned_rows signature.0 signature.1) in
      let capacity = s.layout.capacity in
      let before : Counted = (found.cache, s.stats.evictions) in
      let all = add_all-Sound row found.missing found.payloads h.payloads in
      let same =
        assemble-expected row (add_all (rows_of row found.missing) found.payloads) signature.0
          signature.1 all
          (λ k m.
            add_all-member row k found.missing found.payloads
              (h.covered k (distinct-member k [] (owned_rows signature.0 signature.1) m))) in
      let fits =
        keep_all-Within capacity (rows_of row found.missing) before v.positive
          (omega (arith, h.size, v.within)) in
      (
        _,
        refl,
        Right-ok _ _ same,
        record {
          inside = v.inside;
          sound = keep_all-Sound row capacity found.missing before h.cache;
          positive = v.positive;
          within = fits;
          peak = omega (arith, fits, v.peak);
          brought = v.brought;
        },
        refl,
        refl,
        refl,
      )

  fetched-Answers :
      (signature : Signature) (s : Engram)
      → Valid s
      → (found : Scan)
      → let row = row_of w_file s_file s.layout in
        let keys = distinct [] (owned_rows signature.0 signature.1) in
        Scanned row keys s.cache found
        → (r : Result Table) → Right (rows_of row found.missing) r
        → Answers (expected row signature.0 signature.1) s (fetched signature keys found (some r) s)
  fetched-Answers signature s v found h (raise e) right = (
    _,
    refl,
    right,
    record {
      inside = v.inside;
      sound = h.cache;
      positive = v.positive;
      within = omega (arith, h.size, v.within);
      peak = v.peak;
      brought = v.brought;
    },
    refl,
    refl,
    refl,
  )
  fetched-Answers signature s v found h (ok rows) right =
      rw right (served-Answers signature s v found h)

  module _ (disk : Disk) (limit : ℕ) (honest : Honest w_file s_file limit disk) (fuel : ℕ)
      (enough : limit + dim < fuel) where
    -- Where the calls read what the files hold and no signal interrupts them from the time `limit`
    -- on, a request to an open cache ends for fuel above `limit` and a row of weights. It returns
    -- the tables' rows where the mask is set and nothing elsewhere, or it raises an `OSError` or a
    -- `ValueError`. Either way every cached row stays the table's, and the rows that are cached
    -- stay within the capacity, as does their greatest number so far.
    pub payloads-Answers :
        (signature : Signature) (s : Engram)
        → s.closed ≡ false
        → Valid s
        → Answers
            (expected (row_of w_file s_file s.layout) signature.0 signature.1)
            s
            (payloads disk fuel signature s)
    unfolding payloads
    payloads-Answers signature s opened v =
        let row = row_of w_file s_file s.layout in
        let keys = distinct [] (owned_rows signature.0 signature.1) in
        let found = scan-Scanned row keys s.cache v.sound in
        let missing = (scan keys s.cache).missing in
        let (r, ran, right) =
          fetch_missing-Ends w_file s_file limit disk honest fuel enough s.layout missing in
        let answers = Answers (expected row signature.0 signature.1) s in
        if-false answers s.closed _ _ opened (
          if-both answers (not disk.known) _ _ (_, refl, inr refl, v, refl, refl, refl)
            (rw ran (fetched-Answers signature s v (scan keys s.cache) found r right)))
