-- ===== src/Policy/Uva/Defs.antt =====
-- `inspect_exl3_moe_uva_layer`, `validate_exl3_moe_uva_arenas`, `validate_exl3_moe_uva_layer` and
-- the guard that `install_uva_expert_validation` installs, src/vllm_exl3/uva_offload.py. A layer is
-- what the guard reads of it.
use vllm_exl.Prelude.{
  ℕ, ◌+◌, ◌*◌, Bool, true, false, ◌&&◌, ◌||◌, not, Option, none, some, List, [], ◌∷◌, ltb, ◌==◌,
  if◌then◌else◌, Result, ok, runtime_error, raise_if, ◌>>=◌, ◌>>◌, length,
}
use vllm_exl.Prelude.Text.{Text, among, affirmative, strip, lower}

unfoldable pub uva_expert_offload_required : Option Text → Bool
uva_expert_offload_required none = false
uva_expert_offload_required (some value) = among (lower (strip value)) affirmative

-- a parameter: the marker `_vllm_is_uva_offloaded`, whether its device is the CPU, and its number
-- of elements, `none` where it has none to tell
pub record Param : Type 0 where
  pub marked : Bool
  pub on_cpu : Bool
  pub numel : Option ℕ

-- `EXL3_MOE_UVA_PARAMETER_SEGMENTS`
pub data Segment : Type 0 where
  w13_trellis w13_suh w13_svh w2_trellis w2_suh w2_svh : Segment

abbrev pub segments : List Segment
segments = w13_trellis ∷ w13_suh ∷ w13_svh ∷ w2_trellis ∷ w2_suh ∷ w2_svh ∷ []

-- an arena: the marker, its number of elements, and the size of one
pub record Arena : Type 0 where
  pub marked : Bool
  pub numel : Option ℕ
  pub element_size : ℕ

pub record Layer : Type 0 where
  -- `getattr(layer, name, None)`
  pub parameter : Segment → Option Param
  -- `hasattr(layer, "w13_trellis")`, also where the attribute is None
  pub has_w13_trellis : Bool
  -- `hasattr(layer, "gate_trellis")`
  pub has_gate_trellis : Bool
  -- the arenas of the three attributes, one after the other
  pub arenas : List Arena

-- `uva`, `placeholders`, `cpu`, `resident` and `missing`
pub record Sorted : Type 0 where
  pub uva : List Segment
  pub placeholders : List Segment
  pub cpu : List Segment
  pub resident : List Segment
  pub missing : List Segment

abbrev pub is_zero : Option ℕ → Bool
is_zero none = false
is_zero (some n) = n == 0

-- the body of the loop over the segments; the lists grow at their front
unfoldable pub place : Segment → Option Param → Sorted → Sorted
place s none r = record r { missing = s ∷ r.missing }
place s (some p) r =
    if p.marked && is_zero p.numel
    then record r { placeholders = s ∷ r.placeholders }
    else if p.marked
    then record r { uva = s ∷ r.uva }
    else if p.on_cpu
    then record r { cpu = s ∷ r.cpu }
    else record r { resident = s ∷ r.resident }

unfoldable pub place_all : Layer → List Segment → Sorted
unfolding place
place_all layer [] = record { uva = []; placeholders = []; cpu = []; resident = []; missing = [] }
place_all layer (s ∷ ss) = place s (layer.parameter s) (place_all layer ss)

pub record ArenaSummary : Type 0 where
  pub applicable : Bool
  pub uva_arenas : ℕ
  pub resident_arenas : ℕ
  pub bytes : ℕ

pub record Status : Type 0 where
  pub applicable : Bool
  pub required : Bool
  pub fully_uva_offloaded : Bool
  pub partially_uva_offloaded : Bool
  pub cpu_fallback_parameters : List Segment
  pub uva_parameters : List Segment
  pub resident_parameters : List Segment
  pub placeholder_parameters : List Segment
  pub arenas : Option ArenaSummary

abbrev pub is_empty : {A : Type 0} → List A → Bool
is_empty [] = true
is_empty (x ∷ xs) = false

abbrev pub status_of : Bool → Sorted → Status
status_of required r =
    let fully = length r.uva + length r.placeholders == 6 in
    record {
      applicable = true;
      required = required;
      fully_uva_offloaded = fully;
      partially_uva_offloaded =
          (not (is_empty r.uva) || not (is_empty r.placeholders)) && not fully;
      cpu_fallback_parameters = r.cpu;
      uva_parameters = r.uva;
      resident_parameters = r.resident;
      placeholder_parameters = r.placeholders;
      arenas = none;
    }

abbrev pub not_applicable : Bool → Status
not_applicable required = record {
  applicable = false;
  required = required;
  fully_uva_offloaded = false;
  partially_uva_offloaded = false;
  cpu_fallback_parameters = [];
  uva_parameters = [];
  resident_parameters = [];
  placeholder_parameters = [];
  arenas = none;
}

abbrev pub inspected : Bool → Sorted → Result Status
inspected required r =
    raise_if (not (is_empty r.missing)) runtime_error >> ok (status_of required r)

-- `inspect_exl3_moe_uva_layer` with `required` given
unfoldable pub inspect_exl3_moe_uva_layer : Layer → Bool → Result Status
unfolding place_all
inspect_exl3_moe_uva_layer layer required =
    if layer.has_w13_trellis
    then inspected required (place_all layer segments)
    else ok (not_applicable required)

abbrev pub elements : Option ℕ → ℕ
elements none = 0
elements (some n) = n

abbrev pub count_arena : Arena → ArenaSummary → ArenaSummary
count_arena a s =
    if a.marked
    then record s {
      bytes = s.bytes + elements a.numel * a.element_size;
      uva_arenas = s.uva_arenas + 1;
    }
    else record s {
      bytes = s.bytes + elements a.numel * a.element_size;
      resident_arenas = s.resident_arenas + 1;
    }

-- the loops over the arenas
unfoldable pub count_arenas : List Arena → ArenaSummary → ArenaSummary
count_arenas [] s = s
count_arenas (a ∷ rest) s = count_arenas rest (count_arena a s)

abbrev pub no_arenas : Bool → ArenaSummary
no_arenas applicable = record {
  applicable = applicable;
  uva_arenas = 0;
  resident_arenas = 0;
  bytes = 0;
}

abbrev pub accept_arenas : ArenaSummary → Result ArenaSummary
accept_arenas s = do
  raise_if (s.uva_arenas + s.resident_arenas == 0) runtime_error
  raise_if (ltb 0 s.resident_arenas) runtime_error
  ok s

unfoldable pub validate_exl3_moe_uva_arenas : Layer → Result ArenaSummary
unfolding count_arenas
validate_exl3_moe_uva_arenas layer =
    if layer.has_gate_trellis
    then accept_arenas (count_arenas layer.arenas (no_arenas true))
    else ok (no_arenas false)

abbrev pub accept_status : Status → Result Status
accept_status s = if not s.applicable then ok s else (do
  raise_if (not (is_empty s.cpu_fallback_parameters)) runtime_error
  raise_if s.partially_uva_offloaded runtime_error
  raise_if (not s.fully_uva_offloaded) runtime_error
  ok s)

unfoldable pub validate_exl3_moe_uva_layer : Layer → Result Status
unfolding inspect_exl3_moe_uva_layer
validate_exl3_moe_uva_layer layer = inspect_exl3_moe_uva_layer layer true >>= accept_status

-- the status that the guard leaves on the layer, once the arenas are validated
abbrev pub with_arenas : Status → Layer → Result (Option Status × Layer)
with_arenas s layer = validate_exl3_moe_uva_arenas layer >>= λ summary.
    ok (some (record s { arenas = some summary }), layer)

-- `process_weights_after_loading_uva_guard` around an original method, from the value of
-- VLLM_EXL3_REQUIRE_UVA_EXPERTS: the status, where one is required, and the layer
unfoldable pub process_weights_after_loading_uva_guard :
    Option Text → (Layer → Result Layer) → Layer → Result (Option Status × Layer)
unfolding uva_expert_offload_required validate_exl3_moe_uva_layer validate_exl3_moe_uva_arenas
process_weights_after_loading_uva_guard env original layer =
    if uva_expert_offload_required env && layer.has_w13_trellis
    then validate_exl3_moe_uva_layer layer >>= (λ s. original layer >>= with_arenas s)
    else (original layer >>= λ layer'. ok (none, layer'))
