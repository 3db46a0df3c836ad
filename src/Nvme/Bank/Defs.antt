-- ===== src/Nvme/Bank/Defs.antt =====
-- `validate_tensors` and the tests of `ExpertStore.__init__`, experiments/dsv41_nvme/expert_store.py.
-- The name of a tensor is a number: `4 * p + s` for the projection `p` of w1, w2, w3 and the suffix
-- `s` of trellis, suh, svh, mul1, and 12 or more for any other name. The numbers of a manifest are
-- not negative: the tests refuse a negative one as they refuse 0.
use vllm_exl.Prelude.{
  ℕ, zero, suc, ◌+◌, ◌*◌, ◌/◌, ◌%◌, ◌==◌, Bool, true, false, ◌&&◌, ◌||◌, not, Option, none, some,
  List, [], ◌∷◌, ltb, leb, if◌then◌else◌, Result, ok, raise, raise_if, ◌>>=◌, ◌>>◌, value_error,
  runtime_error, length,
}
use vllm_exl.Nvme.Reads.Defs.{Extent}

pub data Dtype : Type 0 where
  i16 f16 i32 other_dtype : Dtype

pub record Tensor : Type 0 where
  pub dtype : Dtype
  pub shape : List ℕ
  pub offset : ℕ
  pub bytes : ℕ

abbrev pub Tensors : Type 0
Tensors = List (ℕ × Tensor)

pub record Record : Type 0 where
  pub layer : ℕ
  pub expert : ℕ
  pub extent : Extent
  pub tensors : Tensors

unfoldable pub tensor_at : ℕ → Tensors → Option Tensor
tensor_at n [] = none
tensor_at n ((m, t) ∷ ts) = if n == m then some t else tensor_at n ts

-- `math.prod`
unfoldable pub prod : List ℕ → ℕ
prod [] = 1
prod (n ∷ ns) = n * prod ns

-- `WIDTH[dtype]`; `validate_tensors` has refused a dtype that it has not
abbrev pub width : Dtype → Option ℕ
width i16 = some 2
width f16 = some 2
width i32 = some 4
width other_dtype = none

-- the tests of a dtype against the one that the suffix wants
abbrev is_i16 : Dtype → Bool
is_i16 i16 = true
is_i16 f16 = false
is_i16 i32 = false
is_i16 other_dtype = false

abbrev is_f16 : Dtype → Bool
is_f16 f16 = true
is_f16 i16 = false
is_f16 i32 = false
is_f16 other_dtype = false

abbrev is_i32 : Dtype → Bool
is_i32 i32 = true
is_i32 i16 = false
is_i32 f16 = false
is_i32 other_dtype = false

-- `shape[0]` of a shape of one dimension
abbrev pub single : List ℕ → Option ℕ
single [] = none
single (n ∷ []) = some n
single (n ∷ m ∷ ns) = none

-- `m['shape'] in ([], [1])`
abbrev marker_shape : List ℕ → Bool
marker_shape [] = true
marker_shape (n ∷ []) = n == 1
marker_shape (n ∷ m ∷ ns) = false

-- `shape[2] in range(32, 129, 16)`
abbrev pub bit_width : ℕ → Bool
bit_width n = leb 32 n && ltb n 129 && (n % 16 == 0)

-- the geometry of a trellis
abbrev trellis_shape : ℕ → ℕ → List ℕ → Bool
trellis_shape nin nout (a ∷ b ∷ c ∷ []) = a == nin / 16 && b == nout / 16 && bit_width c
trellis_shape nin nout [] = false
trellis_shape nin nout (a ∷ []) = false
trellis_shape nin nout (a ∷ b ∷ []) = false
trellis_shape nin nout (a ∷ b ∷ c ∷ d ∷ ns) = false

-- the tests of a dimension
abbrev bad_dimension : ℕ → Bool
bad_dimension n = n == 0 || not (n % 128 == 0)

abbrev sized : Tensor → ℕ → ℕ → Result (ℕ × ℕ)
sized t nin nout =
    raise_if (bad_dimension nin || bad_dimension nout) value_error
    >> raise_if (not (trellis_shape nin nout t.shape)) value_error
    >> ok (nin, nout)

abbrev scales : Tensor → Option ℕ → Option ℕ → Result (ℕ × ℕ)
scales t none nout = raise value_error
scales t (some nin) none = raise value_error
scales t (some nin) (some nout) = sized t nin nout

abbrev checked : Tensor → Tensor → Tensor → Tensor → Result (ℕ × ℕ)
checked t u v m =
    raise_if (not (is_i16 t.dtype && is_f16 u.dtype && is_f16 v.dtype && is_i32 m.dtype))
      value_error
    >> raise_if (not (marker_shape m.shape)) value_error
    >> scales t (single u.shape) (single v.shape)

-- the dimensions of a projection, where the four tensors are there
abbrev present : Option Tensor → Option Tensor → Option Tensor → Option Tensor → Result (ℕ × ℕ)
present (some t) (some u) (some v) (some m) = checked t u v m
present none u v m = raise value_error
present (some t) none v m = raise value_error
present (some t) (some u) none m = raise value_error
present (some t) (some u) (some v) none = raise value_error

unfoldable pub projection : ℕ → Tensors → Result (ℕ × ℕ)
projection p ts =
    present (tensor_at (4 * p) ts) (tensor_at (4 * p + 1) ts) (tensor_at (4 * p + 2) ts)
      (tensor_at (4 * p + 3) ts)

abbrev consistent : (w1 w2 w3 : ℕ × ℕ) → Bool
consistent w1 w2 w3 = w1.0 == w3.0 && w1.1 == w3.1 && w2.0 == w1.1 && w2.1 == w1.0

unfoldable pub all_present : ℕ → Tensors → Bool
all_present zero ts = true
all_present (suc n) ts =
    let rest = all_present n ts in elim (tensor_at n ts) [ none ↦ false | some t ↦ rest ]

abbrev pub tensor_count : ℕ
tensor_count = 12

-- `validate_tensors`
unfoldable pub validate_tensors : Tensors → Result (Unit {0})
unfolding projection all_present
validate_tensors ts =
    raise_if (not (length ts == tensor_count && all_present tensor_count ts)) value_error
    >> (projection 0 ts >>= λ w1. projection 1 ts >>= λ w2.
        projection 2 ts >>= λ w3. raise_if (not (consistent w1 w2 w3)) value_error)

-- `sorted(…, key=lambda x: x[1]['offset'])`
unfoldable pub insert_tensor : ℕ × Tensor → Tensors → Tensors
insert_tensor t [] = t ∷ []
insert_tensor t (u ∷ ts) =
    let rest = insert_tensor t ts in if leb t.1.offset u.1.offset then t ∷ u ∷ ts else u ∷ rest

unfoldable pub sort_tensors : Tensors → Tensors
unfolding insert_tensor
sort_tensors [] = []
sort_tensors (t ∷ ts) = insert_tensor t (sort_tensors ts)

unfoldable pub insert_record : Record → List Record → List Record
insert_record r [] = r ∷ []
insert_record r (s ∷ rs) =
    let rest = insert_record r rs in
    if leb r.extent.offset s.extent.offset then r ∷ s ∷ rs else s ∷ rest

unfoldable pub sort_records : List Record → List Record
unfolding insert_record
sort_records [] = []
sort_records (r ∷ rs) = insert_record r (sort_records rs)

-- the extent of a tensor after the ones before it, in a record of `bytes`
abbrev pub bad_tensor : ℕ → ℕ → Tensor → Bool
bad_tensor bytes end t = elim (width t.dtype) [
  | none ↦ true
  | some w ↦
      ltb t.offset end
      || not (t.offset % 256 == 0)
      || not (t.bytes == prod t.shape * w)
      || ltb bytes (t.offset + t.bytes)
]

unfoldable pub check_tensors : ℕ → ℕ → Tensors → Result (Unit {0})
unfolding prod
check_tensors bytes end [] = ok tt
check_tensors bytes end ((n, t) ∷ ts) =
    let rest = check_tensors bytes (t.offset + t.bytes) ts in
    if bad_tensor bytes end t then raise value_error else rest

abbrev pub align : ℕ
align = 4096

abbrev pub bad_bounds : ℕ → ℕ → Extent → Bool
bad_bounds max_record_bytes end x =
    not (x.offset == end)
    || not (x.bytes % align == 0)
    || not (ltb 0 x.bytes && leb x.bytes max_record_bytes)

abbrev pub check_contents : Record → Result (Unit {0})
check_contents r =
    validate_tensors r.tensors >> check_tensors r.extent.bytes 0 (sort_tensors r.tensors)

abbrev pub check_bounds : ℕ → ℕ → Record → Result (Unit {0})
check_bounds max_record_bytes end r =
    raise_if (bad_bounds max_record_bytes end r.extent) value_error >> check_contents r

-- the tests of a record that should start at `end`
abbrev pub check_record : ℕ → ℕ → Record → Result (Unit {0})
check_record max_record_bytes end r =
    raise_if (leb 40 r.layer || leb 384 r.expert) value_error >> check_bounds max_record_bytes end r

-- the loop over the records, and the end of the last
unfoldable pub check_records : ℕ → ℕ → List Record → Result ℕ
unfolding validate_tensors check_tensors sort_tensors
check_records max_record_bytes end [] = ok end
check_records max_record_bytes end (r ∷ rs) =
    let rest = check_records max_record_bytes (end + r.extent.bytes) rs in
    check_record max_record_bytes end r >> rest

abbrev pub is_empty : List Record → Bool
is_empty [] = true
is_empty (r ∷ rs) = false

-- the tests after the loop, of the end of the last record
abbrev pub check_end :
    List Record → (bank_bytes file_size : ℕ) → (direct available : Bool) → ℕ → Result (Unit {0})
check_end records bank_bytes file_size direct available end =
    raise_if (is_empty records || not (end == bank_bytes) || not (end == file_size)) value_error
    >> raise_if (direct && not available) runtime_error

abbrev pub check_bank :
    ℕ → List Record → (bank_bytes file_size : ℕ) → (direct available : Bool) → Result (Unit {0})
check_bank max_record_bytes records bank_bytes file_size direct available =
    check_records max_record_bytes 0 (sort_records records)
    >>= check_end records bank_bytes file_size direct available

-- the constructor, up to opening the file: whether the digest of the manifest is the expected one,
-- whether it has the right version, model, revision and alignment, its records and bank bytes, the
-- size of the file, and whether direct reads are asked for and available
unfoldable pub accept :
    (digest identity : Bool)
    → ℕ
    → List Record
    → (bank_bytes file_size : ℕ) → (direct available : Bool) → Result (Unit {0})
unfolding check_records sort_records
accept digest identity max_record_bytes records bank_bytes file_size direct available =
    raise_if (not (digest && identity)) value_error
    >> check_bank max_record_bytes records bank_bytes file_size direct available
