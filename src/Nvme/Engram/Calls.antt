-- ===== src/Nvme/Engram/Calls.antt =====
-- `prefetch`, `gather_into` and `close` of `class EngramRows`,
-- experiments/dsv41_nvme/engram_rows.py.
use vllm_exl.Prelude.{
  ℕ, suc, ◌+◌, ◌*◌, ◌==◌, Bool, true, false, ◌&&◌, ◌||◌, not, Option, none, some, List, [], ◌∷◌,
  ltb, leb, ℤ, pos, negsuc, if◌then◌else◌, Result, ok, raise, runtime_error, value_error, length,
  take, drop,
}
use vllm_exl.Prelude.Values.{Value, none_value, other_value, bool_value, int_value, str_value}
use vllm_exl.Nvme.Reads.Defs.{Bytes, splice, zeros}
use vllm_exl.Nvme.Engram.Defs.{
  Disk, Stats, Layout, Signature, Payloads, Engram, Outcome, dim, scale_bytes, validate, payloads,
}

-- the storage of a gather
pub record Output : Type 0 where
  pub weight : Bytes
  pub scale : Bytes
  pub readonly : Bool

unfoldable pub ids_eq : List ℕ → List ℕ → Bool
ids_eq [] [] = true
ids_eq [] (b ∷ bs) = false
ids_eq (a ∷ as_) [] = false
ids_eq (a ∷ as_) (b ∷ bs) = a == b && ids_eq as_ bs

abbrev bool_eq : Bool → Bool → Bool
bool_eq true b = b
bool_eq false b = not b

unfoldable pub masks_eq : List Bool → List Bool → Bool
masks_eq [] [] = true
masks_eq [] (b ∷ bs) = false
masks_eq (a ∷ as_) [] = false
masks_eq (a ∷ as_) (b ∷ bs) = bool_eq a b && masks_eq as_ bs

-- `expected == signature`
abbrev pub same_signature : Signature → Signature → Bool
same_signature a b = ids_eq a.0 b.0 && masks_eq a.1 b.1

abbrev pub submitted : Signature → Option (Outcome Payloads) → Option (Outcome (Unit {0}))
submitted signature none = none
submitted signature (some (r, s)) = some (
  ok tt,
  record s {
    pending = some (signature, r);
    stats = record s.stats { prefetch_submitted = s.stats.prefetch_submitted + 1 };
  },
)

abbrev pub prefetch_of : Disk → ℕ → Result Signature → Engram → Option (Outcome (Unit {0}))
prefetch_of disk fuel (raise e) s = some (raise e, s)
prefetch_of disk fuel (ok signature) s = elim s.pending [
  | some p ↦ some (raise runtime_error, s)
  | none ↦ submitted signature (payloads disk fuel signature s)
]

-- `prefetch`
unfoldable pub prefetch : Disk → ℕ → List Value → List Value → Engram → Option (Outcome (Unit {0}))
unfolding validate payloads
prefetch disk fuel rows owned s = prefetch_of disk fuel (validate rows owned s) s

abbrev pub weight_of : Option Bytes → Bytes
weight_of none = zeros dim
weight_of (some d) = take dim d

abbrev pub scale_of : Option Bytes → Bytes
scale_of none = zeros scale_bytes
scale_of (some d) = drop dim d

-- the loop of `gather_into` from row `i` on
unfoldable pub write : ℕ → Payloads → Output → Output
write i [] out = out
write i (p ∷ ps) out = write (suc i) ps (record out {
  weight = splice out.weight (i * dim) (weight_of p);
  scale = splice out.scale (i * scale_bytes) (scale_of p);
})

-- the requests of `gather_into`: the payloads, of the prefetch if it is for this signature
abbrev pub resolve :
    Disk → ℕ → Signature → Option (Signature × Result Payloads) → Engram → Option (Outcome Payloads)
resolve disk fuel signature none s = payloads disk fuel signature s
resolve disk fuel signature (some (expected, raise e)) s = some (raise e, s)
resolve disk fuel signature (some (expected, ok p)) s =
    if same_signature expected signature
    then some (
      ok p,
      record s {
        pending = none;
        stats = record s.stats { prefetch_consumed = s.stats.prefetch_consumed + 1 };
      },
    )
    else payloads disk fuel signature (record s {
      pending = none;
      stats = record s.stats { prefetch_unused = s.stats.prefetch_unused + 1 };
    })

abbrev pub written : Output → Option (Outcome Payloads) → Option (Outcome Output)
written out none = none
written out (some (raise e, s)) = some (raise e, s)
written out (some (ok p, s)) = some (ok (write 0 p out), s)

abbrev pub fits : Signature → Output → Bool
fits signature out =
    length out.weight == length signature.0 * dim
    && length out.scale == length signature.0 * scale_bytes
    && not out.readonly

abbrev pub gather_of : Disk → ℕ → Output → Result Signature → Engram → Option (Outcome Output)
gather_of disk fuel out (raise e) s = some (raise e, s)
gather_of disk fuel out (ok signature) s =
    if fits signature out
    then written out (resolve disk fuel signature s.pending s)
    else some (raise value_error, s)

-- `gather_into`, with the storage that it leaves if it returns
unfoldable pub gather_into :
    Disk → ℕ → List Value → List Value → Output → Engram → Option (Outcome Output)
unfolding validate payloads ids_eq masks_eq write
gather_into disk fuel rows owned out s = gather_of disk fuel out (validate rows owned s) s

abbrev error_of : Option (Signature × Result Payloads) → Result (Unit {0})
error_of (some (signature, raise e)) = raise e
error_of (some (signature, ok p)) = ok tt
error_of none = ok tt

unfoldable pub close : Engram → Outcome (Unit {0})
close s =
    if s.closed
    then (ok tt, s)
    else (error_of s.pending, record s { cache = []; pending = none; closed = true })

abbrev pub no_stats : Stats
no_stats = record {
  requests = 0;
  owned_rows = 0;
  distinct_rows = 0;
  unique_hits = 0;
  unique_misses = 0;
  disk_weight_bytes = 0;
  disk_scale_bytes = 0;
  evictions = 0;
  peak_cached_rows = 0;
  prefetch_submitted = 0;
  prefetch_consumed = 0;
  prefetch_unused = 0;
}

-- the end of the constructor, on the sizes of both files
abbrev pub sized : Layout → (w_size s_size : ℕ) → Result Engram
sized l w_size s_size =
    if ltb w_size (l.w_offset + l.rows * dim) || ltb s_size (l.s_offset + l.rows * scale_bytes)
    then raise value_error
    else ok (record { layout = l; cache = []; pending = none; closed = false; stats = no_stats })

abbrev pub max_rows : ℕ
max_rows = 131072

-- `type(v) is not int or not low <= v <= high`, and the number
abbrev pub bounded : ℕ → ℕ → Value → Option ℕ
bounded low high (int_value (pos n)) = if leb low n && leb n high then some n else none
bounded low high (int_value (negsuc n)) = none
bounded low high none_value = none
bounded low high other_value = none
bounded low high (bool_value b) = none
bounded low high (str_value t) = none

abbrev pub laid_out :
    (w_offset s_offset rows : ℤ) → (width scales : ℕ) → ℕ → (w_size s_size : ℕ) → Result Engram
laid_out (pos w) (pos s) (pos (suc n)) width scales capacity w_size s_size =
    if width == dim && scales == scale_bytes
    then sized (record { w_offset = w; s_offset = s; rows = suc n; capacity = capacity }) w_size
        s_size
    else raise value_error
laid_out w s rows width scales capacity w_size s_size = raise value_error

-- the constructor, on files of these sizes
unfoldable pub init :
    (w_offset s_offset rows : ℤ)
    → (width scales : ℕ) → (capacity_rows workers : Value) → (w_size s_size : ℕ) → Result Engram
init w s rows width scales capacity_rows workers w_size s_size =
    elim (bounded 1 max_rows capacity_rows) [
      | none ↦ raise value_error
      | some capacity ↦ elim (bounded 1 4 workers) [
        | none ↦ raise value_error
        | some n ↦ laid_out w s rows width scales capacity w_size s_size
      ]
    ]
