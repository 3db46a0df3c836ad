-- ===== src/Nvme/Engram/Defs.antt =====
-- `class EngramRows` of experiments/dsv41_nvme/engram_rows.py: `_validate`, `_fetch`, `_payloads`,
-- `prefetch`, `gather_into` and `close`. The calls of the disk are arguments of an operation, as
-- is whether the tables have the identity that the constructor saw. A prefetch runs on a thread
-- of its own while no other request runs: it is run where it is submitted, and its future is its
-- result. `none` is a read that runs out of fuel.
use vllm_exl.Prelude.Keys.{distinct}
use vllm_exl.Prelude.{
  ℕ, zero, suc, ◌+◌, ◌-◌, ◌*◌, max, ◌==◌, Bool, true, false, ◌||◌, not, Option, none, some, List,
  [], ◌∷◌, ◌++◌, ltb, if◌then◌else◌, Result, ok, raise, raise_if, ◌>>◌, runtime_error, value_error,
  key_error, length, take, drop, pos,
}
use vllm_exl.Prelude.Values.{Value, int_value, bool_value}
use vllm_exl.Nvme.Reads.Defs.{Bytes, Pread, read_row}
use vllm_exl.Nvme.Engram.Store.{Table, lookup, Scan, scan, keep_all}

-- the disk during a request: the calls on the table of weights and of scales, and whether both
-- tables have their identity at the start of `_payloads`, at the start and at the end of `_fetch`
pub record Disk : Type 0 where
  pub weights : Pread
  pub scales : Pread
  pub known : Bool
  pub same : Bool
  pub unchanged : Bool

pub record Stats : Type 0 where
  pub requests : ℕ
  pub owned_rows : ℕ
  pub distinct_rows : ℕ
  pub unique_hits : ℕ
  pub unique_misses : ℕ
  pub disk_weight_bytes : ℕ
  pub disk_scale_bytes : ℕ
  pub evictions : ℕ
  pub peak_cached_rows : ℕ
  pub prefetch_submitted : ℕ
  pub prefetch_consumed : ℕ
  pub prefetch_unused : ℕ

-- the row ids of a request and its ownership mask
abbrev pub Signature : Type 0
Signature = List ℕ × List Bool

abbrev pub Payloads : Type 0
Payloads = List (Option Bytes)

-- where the tables stand in their files, and how many rows they have
pub record Layout : Type 0 where
  pub w_offset : ℕ
  pub s_offset : ℕ
  pub rows : ℕ
  pub capacity : ℕ

pub record Engram : Type 0 where
  pub layout : Layout
  pub cache : Table
  pub pending : Option (Signature × Result Payloads)
  pub closed : Bool
  pub stats : Stats

abbrev pub dim : ℕ
dim = 256

abbrev pub scale_bytes : ℕ
scale_bytes = 8

abbrev pub max_request : ℕ
max_request = 8192

-- `type(r) is not int or not 0 <= r < self.rows`, and the row
abbrev pub row_id : ℕ → Value → Option ℕ
row_id rows (int_value (pos n)) = if ltb n rows then some n else none
row_id rows _ = none

abbrev pub ownership : Value → Option Bool
ownership (bool_value b) = some b
ownership _ = none

-- all of them, or none
abbrev pub all_some : {A : Type 0} → (Value → Option A) → List Value → Option (List A)
all_some f [] = some []
all_some f (v ∷ vs) = elim (f v) [
  | none ↦ none
  | some a ↦ elim (all_some f vs) [ none ↦ none | some as_ ↦ some (a ∷ as_) ]
]

abbrev pub signature_of : Option (List ℕ) → Option (List Bool) → Result Signature
signature_of none o = raise value_error
signature_of (some rows) none = raise value_error
signature_of (some rows) (some owned) = ok (rows, owned)

-- `_validate`
unfoldable pub validate : List Value → List Value → Engram → Result Signature
validate rows owned s =
    raise_if s.closed runtime_error
    >> raise_if (not (length rows == length owned) || ltb max_request (length rows)) value_error
    >> signature_of (all_some (row_id s.layout.rows) rows) (all_some ownership owned)

-- what a read does, or the next step
abbrev pub after {ℓ κ} :
    {A : Type ℓ} {B : Type κ} → Option (Result A) → (A → Option (Result B)) → Option (Result B)
after none f = none
after (some (raise e)) f = some (raise e)
after (some (ok a)) f = f a

-- the weights and the scales of a row
unfoldable pub read_pair : Disk → ℕ → Layout → ℕ → Option (Result Bytes)
read_pair disk fuel l k = after (read_row disk.weights fuel (l.w_offset + k * dim) dim) (λ w.
    after (read_row disk.scales fuel (l.s_offset + k * scale_bytes) scale_bytes)
      (λ s. some (ok (w ++ s))))

-- `chunk` of `_fetch`
unfoldable pub read_batch : Disk → ℕ → Layout → List ℕ → Option (Result Table)
unfolding read_pair
read_batch disk fuel l [] = some (ok [])
read_batch disk fuel l (k ∷ ks) =
    after (read_pair disk fuel l k)
      (λ d. after (read_batch disk fuel l ks) (λ rows. some (ok ((k, d) ∷ rows))))

-- `keys[start:start+16] for start in range(0, len(keys), 16)`, for as many rounds as keys
unfoldable pub batches : ℕ → List ℕ → List (List ℕ)
batches zero ks = []
batches (suc n) [] = []
batches (suc n) (k ∷ ks) = take 16 (k ∷ ks) ∷ batches n (drop 16 (k ∷ ks))

-- the results of the futures
unfoldable pub read_batches : Disk → ℕ → Layout → List (List ℕ) → Option (Result Table)
unfolding read_batch
read_batches disk fuel l [] = some (ok [])
read_batches disk fuel l (b ∷ bs) =
    after (read_batch disk fuel l b)
      (λ rows. after (read_batches disk fuel l bs) (λ more. some (ok (rows ++ more))))

-- `_fetch`
unfoldable pub fetch : Disk → ℕ → Layout → List ℕ → Option (Result Table)
unfolding batches read_batches
fetch disk fuel l keys =
    if not disk.same
    then some (raise value_error)
    else after (read_batches disk fuel l (batches (length keys) keys))
        (λ rows. if not disk.unchanged then some (raise value_error) else some (ok rows))

-- `_fetch(missing) if missing else ()`
abbrev pub fetch_missing : Disk → ℕ → Layout → List ℕ → Option (Result Table)
fetch_missing disk fuel l [] = some (ok [])
fetch_missing disk fuel l (k ∷ ks) = fetch disk fuel l (k ∷ ks)

-- the rows of a request that are owned
unfoldable pub owned_rows : List ℕ → List Bool → List ℕ
owned_rows [] owned = []
owned_rows (r ∷ rs) [] = []
owned_rows (r ∷ rs) (true ∷ bs) = r ∷ owned_rows rs bs
owned_rows (r ∷ rs) (false ∷ bs) = owned_rows rs bs

unfoldable pub count_owned : List Bool → ℕ
count_owned [] = 0
count_owned (true ∷ bs) = suc (count_owned bs)
count_owned (false ∷ bs) = count_owned bs

-- `payloads[key] = data` of every row that was read
unfoldable pub add_all : Table → Table → Table
add_all [] p = p
add_all (row ∷ rows) p = add_all rows (row ∷ p)

abbrev pub with_row : Option Bytes → Result Payloads → Result Payloads
with_row d (ok p) = ok (d ∷ p)
with_row d (raise e) = raise e

-- `[payloads[r] if keep else None for …]`
unfoldable pub assemble : Table → List ℕ → List Bool → Result Payloads
assemble p [] owned = ok []
assemble p (r ∷ rs) [] = ok []
assemble p (r ∷ rs) (false ∷ bs) = with_row none (assemble p rs bs)
assemble p (r ∷ rs) (true ∷ bs) = elim (lookup r p) [
  | none ↦ raise key_error
  | some d ↦ with_row (some d) (assemble p rs bs)
]

abbrev pub Outcome : Type 0 → Type 0
Outcome A = Result A × Engram

-- the counts of a request that was served, with the bytes that `_fetch` counts
abbrev pub counted : List Bool → List ℕ → List ℕ → ℕ → ℕ → Stats → Stats
counted owned keys missing evictions cached t = record t {
  requests = t.requests + 1;
  owned_rows = t.owned_rows + count_owned owned;
  distinct_rows = t.distinct_rows + length keys;
  unique_misses = t.unique_misses + length missing;
  unique_hits = t.unique_hits + (length keys - length missing);
  disk_weight_bytes = t.disk_weight_bytes + length missing * dim;
  disk_scale_bytes = t.disk_scale_bytes + length missing * scale_bytes;
  evictions = evictions;
  peak_cached_rows = max t.peak_cached_rows cached;
}

-- the end of `_payloads`, with the rows that were read
abbrev pub served : Signature → List ℕ → Scan → Table → Engram → Outcome Payloads
served signature keys found rows s =
    let kept = keep_all s.layout.capacity rows (found.cache, s.stats.evictions) in
    (
      assemble (add_all rows found.payloads) signature.0 signature.1,
      record s {
        cache = kept.0;
        stats = counted signature.1 keys found.missing kept.1 (length kept.0) s.stats;
      },
    )

abbrev pub fetched :
    Signature → List ℕ → Scan → Option (Result Table) → Engram → Option (Outcome Payloads)
fetched signature keys found none s = none
fetched signature keys found (some (raise e)) s = some (raise e, record s { cache = found.cache })
fetched signature keys found (some (ok rows)) s = some (served signature keys found rows s)

abbrev pub scanned : Disk → ℕ → Signature → List ℕ → Scan → Engram → Option (Outcome Payloads)
scanned disk fuel signature keys found s =
    fetched signature keys found (fetch_missing disk fuel s.layout found.missing) s

-- `_payloads`
unfoldable pub payloads : Disk → ℕ → Signature → Engram → Option (Outcome Payloads)
unfolding fetch distinct owned_rows count_owned add_all assemble scan keep_all
payloads disk fuel signature s =
    if s.closed
    then some (raise runtime_error, s)
    else if not disk.known
    then some (raise value_error, s)
    else let keys = distinct [] (owned_rows signature.0 signature.1) in
      scanned disk fuel signature keys (scan keys s.cache) s
