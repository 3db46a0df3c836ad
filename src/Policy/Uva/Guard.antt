-- ===== src/Policy/Uva/Guard.antt =====
-- What a layer that passes the placement guard holds.
use vllm_exl.Prelude.{
  ℕ, ◌+◌, ◌≤◌, ◌<◌, ◌≡◌, ◌⊎◌, refl, true, false, Option, none, some, List, [], ◌∷◌, ◌==◌, Result,
  ok, length, arith, All, Result-cases, Bool-cases, inl, inr, sym,
}
use vllm_exl.Prelude.Text.{Text}
use vllm_exl.Policy.Uva.Defs.{
  uva_expert_offload_required, Param, Segment, segments, Arena, Layer, Sorted, place, place_all,
  ArenaSummary, Status, is_empty, status_of, inspect_exl3_moe_uva_layer, count_arena, count_arenas,
  no_arenas, validate_exl3_moe_uva_arenas, accept_status, validate_exl3_moe_uva_layer,
  process_weights_after_loading_uva_guard,
}

-- the parameter carries the marker
abbrev pub Marked : Layer → Segment → Type 0
Marked layer s = (p : Param) × (layer.parameter s ≡ some p) × (p.marked ≡ true)

abbrev pub marked_count : Sorted → ℕ
marked_count r = length r.uva + length r.placeholders

-- a segment is counted where it is marked, and only then
place-count :
    (s : Segment) (o : Option Param) (r : Sorted)
    → (marked_count (place s o r) ≤ marked_count r + 1)
      × (marked_count (place s o r) ≡ marked_count r + 1
          → (p : Param) × (o ≡ some p) × (p.marked ≡ true))
unfolding place
place-count s none r = (omega arith, λ e. absurd (omega arith))
place-count s (some p) r = elim (Bool-cases p.marked) [
  | inl t ↦ (ground arith, λ e. (p, refl, t))
  | inr f ↦ (ground arith, λ e. absurd (ground arith))
]

-- how many of the segments were marked, at most one for each, and one for each only if all are
place_all-count :
    (layer : Layer) (ss : List Segment)
    → (marked_count (place_all layer ss) ≤ length ss)
      × (marked_count (place_all layer ss) ≡ length ss → All (Marked layer) ss)
unfolding place_all
place_all-count layer [] = (omega arith, λ e. tt)
place_all-count layer (s ∷ ss) =
    let (bound, all) = place_all-count layer ss in
    let (one, mark) = place-count s (layer.parameter s) (place_all layer ss) in
    (omega arith, λ e. (mark (omega arith), all (omega arith)))

accept_status_lem :
    (s s' : Status)
    → accept_status s ≡ ok s'
    → (s ≡ s') × ((s.applicable ≡ false) ⊎ (s.fully_uva_offloaded ≡ true))
accept_status_lem s s' h = (ground arith, ground arith)

-- A layer with routed experts that `validate_exl3_moe_uva_layer` accepts carries vLLM's marker on
-- all six packed parameters: mixed or CPU placement is refused.
pub validate_exl3_moe_uva_layer-Marked :
    (layer : Layer) (s : Status)
    → layer.has_w13_trellis ≡ true
    → validate_exl3_moe_uva_layer layer ≡ ok s
    → (s.fully_uva_offloaded ≡ true) × All (Marked layer) segments
unfolding validate_exl3_moe_uva_layer inspect_exl3_moe_uva_layer
validate_exl3_moe_uva_layer-Marked layer s h k =
    let r : Sorted = place_all layer segments in
    let (bound, all) = place_all-count layer segments in
    elim (Bool-cases (is_empty r.missing)) [
      | inr f ↦ absurd (ground arith)
      | inl t ↦
          let passed : accept_status (status_of true r) ≡ ok s = ground arith in
          let (same, full) = accept_status_lem (status_of true r) s passed in
          let fully : (length r.uva + length r.placeholders == 6) ≡ true = ground arith in
          (ground arith, all (ground arith))
    ]

count_arenas_lem :
    (rest : List Arena) (s : ArenaSummary)
    → let r = count_arenas rest s in
      (s.resident_arenas ≤ r.resident_arenas)
      × (r.uva_arenas + r.resident_arenas ≡ s.uva_arenas + s.resident_arenas + length rest)
      × (r.resident_arenas ≡ s.resident_arenas → All (λ a. a.marked ≡ true) rest)
unfolding count_arenas
count_arenas_lem [] s = (omega arith, omega arith, λ e. tt)
count_arenas_lem (a ∷ rest) s =
    let (more, total, marked) = count_arenas_lem rest (count_arena a s) in
    elim (Bool-cases a.marked) [
      | inl t ↦ (ground arith, ground arith, λ e. (t, marked (ground arith)))
      | inr f ↦ (ground arith, ground arith, λ e. absurd (ground arith))
    ]

-- Arenas are accepted only where there is one, and every one is a mapped view; the summary counts
-- them all. A layer without `gate_trellis` is passed over.
pub validate_exl3_moe_uva_arenas_lem :
    (layer : Layer) (s : ArenaSummary)
    → layer.has_gate_trellis ≡ true
    → validate_exl3_moe_uva_arenas layer ≡ ok s
    → (0 < length layer.arenas)
      × All (λ a. a.marked ≡ true) layer.arenas
      × (s.uva_arenas ≡ length layer.arenas)
unfolding validate_exl3_moe_uva_arenas
validate_exl3_moe_uva_arenas_lem layer s h k =
    let (more, total, marked) = count_arenas_lem layer.arenas (no_arenas true) in
    (ground arith, marked (ground arith), ground arith)

-- Where expert UVA is required, a run of post-load processing that succeeds on a layer with routed
-- experts started from six marked parameters and, if the layer that the original method leaves
-- has its trellises, ends with mapped arenas only, at least one, which the status records.
pub process_weights_after_loading_uva_guard_lem :
    (env : Option Text) (original : Layer → Result Layer) (layer layer' : Layer)
    (status : Option Status)
    → uva_expert_offload_required env ≡ true
    → layer.has_w13_trellis ≡ true
    → process_weights_after_loading_uva_guard env original layer ≡ ok (status, layer')
    → All (Marked layer) segments
      × (original layer ≡ ok layer')
      × (s : Status) × (summary : ArenaSummary) × (status ≡ some s)
      × (s.arenas ≡ some summary)
      × (s.fully_uva_offloaded ≡ true)
      × (validate_exl3_moe_uva_arenas layer' ≡ ok summary)
      × (layer'.has_gate_trellis ≡ true
          → (0 < length layer'.arenas) × All (λ a. a.marked ≡ true) layer'.arenas)
unfolding process_weights_after_loading_uva_guard
process_weights_after_loading_uva_guard_lem env original layer layer' status h w k =
    elim (Result-cases (validate_exl3_moe_uva_layer layer)) [
      | inr (e, m) ↦ absurd (ground arith)
      | inl (s, m) ↦ elim (Result-cases (original layer)) [
        | inr (e, n) ↦ absurd (ground arith)
        | inl (loaded, n) ↦ elim (Result-cases (validate_exl3_moe_uva_arenas loaded)) [
          | inr (e, o) ↦ absurd (ground arith)
          | inl (summary, o) ↦
              let (full, marked) = validate_exl3_moe_uva_layer-Marked layer s w m in
              let same : loaded ≡ layer' = ground arith in
              let left : status ≡ some (record s { arenas = some summary }) = ground arith in
              let checked : validate_exl3_moe_uva_arenas layer' ≡ ok summary = rw (sym same) o in
              (
                marked,
                ground arith,
                record s { arenas = some summary },
                summary,
                left,
                refl,
                full,
                checked,
                λ g.
                    let r = validate_exl3_moe_uva_arenas_lem layer' summary g checked in (r.0, r.1),
              )
        ]
      ]
    ]
