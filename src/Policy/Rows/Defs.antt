-- ===== src/Policy/Rows/Defs.antt =====
-- `native_row_cap` and `install_native_row_policy` of src/vllm_exl3/runtime_policy.py,
-- `_native_moe_max_rows`, `_native_moe_dimensions_supported`, `_exl3_moe_tail` and
-- `expert_k_census_supported` of src/vllm_exl3/exl3.py. The variable of one bit width is a function
-- of the bit width.
use vllm_exl.Prelude.{
  ℕ, Bool, true, false, ◌&&◌, ◌||◌, Option, none, some, List, [], ◌∷◌, ◌++◌, ltb, leb, ◌==◌,
  if◌then◌else◌, ℤ, pos, clamp, Result, ok, raise, runtime_error,
}
use vllm_exl.Prelude.Text.{Text, text, text_eq, int}
use vllm_exl.Prelude.Values.{Value, int_of}
use vllm_exl.Policy.Env.{positive_int_env}

abbrev pub PerBit : Type 0
PerBit = ℕ → Option Text

abbrev pub Resolver : Type 0
Resolver = ℕ → ℤ

unfoldable pub fused_temp_rows_requested : Option Text → ℤ → ℤ
unfolding positive_int_env
fused_temp_rows_requested env default = positive_int_env env default

-- a variable that is unset or no number falls through
abbrev pub override_or : ℤ → Option ℤ → ℕ
override_or fallback none = clamp fallback
override_or fallback (some z) = clamp z

abbrev pub value_of : Option Text → Option ℤ
value_of none = none
value_of (some raw) = int raw

unfoldable pub native_row_cap : PerBit → ℕ → Resolver → ℕ
native_row_cap env bits fallback = override_or (fallback bits) (value_of (env bits))

-- the attributes of the exl3 module that the installation reads and writes
pub record Module : Type 0 where
  pub per_bit_policy_installed : Bool
  -- `none` where it is missing or no function
  pub native_moe_max_rows : Option Resolver
  pub native_row_cap_base : Option Resolver

abbrev pub install_over : PerBit → Module → Option Resolver → Result (Bool × Module)
install_over env m none = raise runtime_error
install_over env m (some original) = ok (
  true,
  record {
    per_bit_policy_installed = true;
    native_moe_max_rows = some (λ bits. pos (native_row_cap env bits original));
    native_row_cap_base = some original;
  },
)

unfoldable pub install_native_row_policy : PerBit → Module → Result (Bool × Module)
install_native_row_policy env m =
    if m.per_bit_policy_installed then ok (false, m) else install_over env m m.native_moe_max_rows

-- `_NATIVE_MOE_MAX_ROWS.get(bits, 8)`
unfoldable pub measured_cap : ℕ → ℕ
measured_cap bits = if bits == 2 then 8 else if bits == 3 then 1 else if bits == 4 then 1 else 8

abbrev pub given : Option Text → Option ℤ
given none = none
given (some []) = none
given (some (c ∷ s)) = int (c ∷ s)

abbrev pub is_text : Option Text → Text → Bool
is_text none t = false
is_text (some s) t = text_eq s t

abbrev pub cap_or : ℕ → Option ℤ → ℕ
cap_or d none = d
cap_or d (some z) = clamp z

-- `_native_moe_max_rows`, from VLLM_EXL3_NATIVE_MOE_MAX_ROWS and VLLM_EXL3_NATIVE_MOE_MEASURED_CAP
unfoldable pub native_moe_max_rows : Option Text → Option Text → ℕ → ℕ
unfolding measured_cap
native_moe_max_rows override measured bits =
    cap_or (if is_text measured (text "1") then measured_cap bits else 8) (given override)

-- what `_native_moe_dimensions_supported` reads of the activations and of the layer; `limit_good` is
-- false where a limit is given that is negative or not finite
pub record Geometry : Type 0 where
  pub dims : ℕ
  pub is_cuda : Bool
  pub limit_good : Bool
  pub rows : ℕ
  pub width : ℕ
  pub hidden_size : Option ℕ
  pub intermediate_local : Option ℕ
  pub k : Option ℕ
  pub bits : Option ℕ
  pub inners : ℕ

abbrev pub attribute : Option ℕ → ℕ → ℕ
attribute none d = d
attribute (some n) d = n

-- `getattr(layer, "_exl3_k", getattr(layer, "_exl3_bits", -1))`, where 0 stands for the -1: neither
-- is a supported width
abbrev pub width_bits : Geometry → ℕ
width_bits g = attribute g.k (attribute g.bits 0)

unfoldable pub native_moe_dimensions_supported : Option Text → Option Text → Geometry → Bool
native_moe_dimensions_supported override measured g =
    g.dims == 2
    && g.is_cuda
    && g.limit_good
    && leb 1 g.rows
    && g.width == attribute g.hidden_size g.width
    && attribute g.hidden_size g.width == 4096
    && (attribute g.intermediate_local 2048 == 1024 || attribute g.intermediate_local 2048 == 2048)
    && (width_bits g == 2 || width_bits g == 3 || width_bits g == 4)
    && ltb 0 g.inners
    && leb g.rows (native_moe_max_rows override measured (width_bits g))

-- an argument of `exl3_moe`
pub data Arg : Type 0 where
  none_arg order_arg : Arg
  int_arg : ℕ → Arg

-- `arity is not None and arity >= n`
abbrev pub takes : Option ℕ → ℕ → Bool
takes none n = false
takes (some arity) n = leb n arity

abbrev pub band : ℕ → List Arg
band temp_rows = none_arg ∷ none_arg ∷ int_arg 1 ∷ int_arg temp_rows ∷ int_arg 16 ∷ []

unfoldable pub uniform_tail : Option ℕ → ℕ → ℕ → List Arg
uniform_tail arity temp_rows n_exp =
    if takes arity 37
    then band temp_rows ++ int_arg 0 ∷ int_arg n_exp ∷ []
    else if takes arity 35
    then band temp_rows
    else []

-- `_exl3_moe_tail`, from the arity of the binding
unfoldable pub exl3_moe_tail : Option ℕ → ℕ → ℕ → Option ℕ → List Arg
unfolding uniform_tail
exl3_moe_tail arity temp_rows n_exp none = uniform_tail arity temp_rows n_exp
exl3_moe_tail arity temp_rows n_exp (some k_max) =
    if takes arity 37
    then band temp_rows ++ int_arg k_max ∷ order_arg ∷ []
    else if takes arity 36
    then band temp_rows ++ int_arg k_max ∷ []
    else uniform_tail arity temp_rows n_exp

abbrev pub in_1_8 : Option ℤ → Bool
in_1_8 none = false
in_1_8 (some z) = leb 1 (clamp z) && leb (clamp z) 8

abbrev pub counted : Option ℤ → Bool
counted none = false
counted (some z) = ltb 0 (clamp z)

unfoldable pub all_k : List Value → Bool
all_k [] = true
all_k (k ∷ ks) = in_1_8 (int_of k) && all_k ks

unfoldable pub every_entry : List (List Value × Value) → Bool
unfolding all_k
every_entry [] = true
every_entry ((ks, count) ∷ rest) = all_k ks && counted (int_of count) && every_entry rest

-- `expert_k_census_supported` of the items of the dict
unfoldable pub expert_k_census_supported : List (List Value × Value) → Bool
unfolding every_entry
expert_k_census_supported [] = false
expert_k_census_supported (e ∷ es) = every_entry (e ∷ es)
