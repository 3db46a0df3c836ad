-- ===== src/Policy/Uva/Tests.antt =====
-- A layer that passes the guard, and the theorems at it.
use vllm_exl.Prelude.{
  ◌<◌, ◌≡◌, refl, true, false, none, some, [], ◌∷◌, ok, raise, runtime_error, Result, All, length,
}
use vllm_exl.Prelude.Text.{text, is_space, lstrip, strip, lower}
use vllm_exl.Policy.Uva.Defs.{
  uva_expert_offload_required, Param, segments, Arena, Layer, place, place_all, ArenaSummary,
  Status, inspect_exl3_moe_uva_layer, count_arenas, validate_exl3_moe_uva_arenas,
  validate_exl3_moe_uva_layer, process_weights_after_loading_uva_guard,
}
use vllm_exl.Policy.Uva.Guard.{
  Marked, validate_exl3_moe_uva_layer-Marked, process_weights_after_loading_uva_guard_lem,
}

program : Unit {0}
unfolding is_space lstrip strip lower uva_expert_offload_required place place_all
    inspect_exl3_moe_uva_layer count_arenas validate_exl3_moe_uva_arenas validate_exl3_moe_uva_layer
    process_weights_after_loading_uva_guard
program = tt

abbrev placeholder : Param
placeholder = record { marked = true; on_cpu = true; numel = some 0 }

abbrev before : Layer
before = record {
  parameter = λ s. some placeholder;
  has_w13_trellis = true;
  has_gate_trellis = false;
  arenas = [];
}

abbrev mapped : Arena
mapped = record { marked = true; numel = some 100; element_size = 2 }

abbrev after : Layer
after = record before { has_gate_trellis = true; arenas = mapped ∷ mapped ∷ [] }

abbrev validated : Status
validated = record {
  applicable = true;
  required = true;
  fully_uva_offloaded = true;
  partially_uva_offloaded = false;
  cpu_fallback_parameters = [];
  uva_parameters = [];
  resident_parameters = [];
  placeholder_parameters = segments;
  arenas = none;
}

abbrev summary : ArenaSummary
summary = record { applicable = true; uva_arenas = 2; resident_arenas = 0; bytes = 400 }

abbrev loaded : Layer → Result Layer
loaded l = ok after

accepted : validate_exl3_moe_uva_layer before ≡ ok validated
unfolding program
accepted = refl

guarded :
    process_weights_after_loading_uva_guard (some (text "on")) loaded before
    ≡ ok (some (record validated { arenas = some summary }), after)
unfolding program
guarded = refl

required : uva_expert_offload_required (some (text "on")) ≡ true
unfolding program
required = refl

mixed :
    validate_exl3_moe_uva_layer (record before {
      parameter = λ s. some (record { marked = false; on_cpu = true; numel = none });
    })
    ≡ raise runtime_error
unfolding program
mixed = refl

validate_exl3_moe_uva_layer-Marked_example :
    (validated.fully_uva_offloaded ≡ true) × All (Marked before) segments
validate_exl3_moe_uva_layer-Marked_example =
    validate_exl3_moe_uva_layer-Marked before validated refl accepted

process_weights_after_loading_uva_guard_lem_example :
    All (Marked before) segments
    × (loaded before ≡ ok after)
    × (s : Status) × (m : ArenaSummary) × (some (record validated { arenas = some summary })
        ≡ some s)
    × (s.arenas ≡ some m)
    × (s.fully_uva_offloaded ≡ true)
    × (validate_exl3_moe_uva_arenas after ≡ ok m)
    × (after.has_gate_trellis ≡ true
        → (0 < length after.arenas) × All (λ a. a.marked ≡ true) after.arenas)
process_weights_after_loading_uva_guard_lem_example =
    process_weights_after_loading_uva_guard_lem (some (text "on")) loaded before after
      (some (record validated { arenas = some summary })) required refl guarded
