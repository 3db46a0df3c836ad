-- ===== src/Tp/Rotation.antt =====
-- The per-layer rotation of the chunks, `moe_tp_rotation` and its use in `_load_exl3`.
use native.Mathlib.Nat.{mod-lt, mod-eq_of_lt, mod-eq-sub-mod}
use vllm_exl.Prelude.{
  ℕ, ◌+◌, ◌-◌, ◌%◌, ◌≤◌, ◌<◌, ◌≡◌, refl, ◌∙◌, sym, leb→le, arith, ltb, leb, ltb→lt, ◌==◌, Bool,
  Option, none, some, Bool-cases, inl, inr, not, ◌&&◌, ◌⊎◌,
}
use vllm_exl.Tp.Defs.{moe_tp_rotation, chunk_of}

-- a sum of two numbers below the modulus wraps once at most
add-mod_wrap :
    (a b m : ℕ)
    → a < m
    → b < m
    → (a + b < m) × ((a + b) % m ≡ a + b) ⊎ (m ≤ a + b) × ((a + b) % m ≡ a + b - m)
add-mod_wrap a b m h k = elim (Bool-cases (ltb (a + b) m)) [
  | inl t ↦ inl (ltb→lt _ _ t, mod-eq_of_lt (ltb→lt _ _ t))
  | inr f ↦
      let over : m ≤ a + b = ground arith in
      inr (over, mod-eq-sub-mod over ∙ mod-eq_of_lt (omega arith))
]

moe_tp_rotation-lt :
    (rotate : Bool) (layer : Option ℕ) (tp_size : ℕ)
    → 0 < tp_size
    → moe_tp_rotation rotate layer tp_size < tp_size
unfolding moe_tp_rotation
moe_tp_rotation-lt rotate none tp_size h = ground arith
moe_tp_rotation-lt rotate (some index) tp_size h = ground (arith, mod-lt index h)

-- the chunk of a rank, whether or not the guard of `chunk_of` holds
chunk_of_lem :
    (rotation tp_size rank : ℕ)
    → rank < tp_size
    → rotation < tp_size
    → chunk_of rotation tp_size rank ≡ (rank + rotation) % tp_size
unfolding chunk_of
chunk_of_lem rotation tp_size rank h k = elim (Bool-cases (ltb 1 tp_size && not (rotation == 0))) [
  | inl t ↦ rw t refl
  | inr f ↦
      let zero_rotation : rotation ≡ 0 = ground arith in
      let e : rank + rotation ≡ rank = omega arith in rw (f, e) (sym (mod-eq_of_lt h))
]

-- For every layer and either setting of the switch, each chunk is loaded by exactly one rank.
pub chunk_of-bijective :
    (rotate : Bool) (layer : Option ℕ) (tp_size chunk : ℕ)
    → chunk < tp_size
    → (rank : ℕ) × (rank < tp_size)
      × (chunk_of (moe_tp_rotation rotate layer tp_size) tp_size rank ≡ chunk)
      × ((other : ℕ)
          → other < tp_size
          → chunk_of (moe_tp_rotation rotate layer tp_size) tp_size other ≡ chunk
          → other ≡ rank)
chunk_of-bijective rotate layer tp_size chunk h =
    let l = moe_tp_rotation rotate layer tp_size in
    let l_lt : l < tp_size = moe_tp_rotation-lt rotate layer tp_size (omega arith) in
    let chunk_eq = λ (rank : ℕ) (k : rank < tp_size). chunk_of_lem l tp_size rank k l_lt in
    let unique =
      λ (a b : ℕ) (i : a < tp_size) (j : b < tp_size) (e : chunk_of l tp_size a ≡ chunk)
          (f : chunk_of l tp_size b ≡ chunk).
        let r : a ≡ b = omega (
          arith,
          chunk_eq a i,
          chunk_eq b j,
          add-mod_wrap a l tp_size i l_lt,
          add-mod_wrap b l tp_size j l_lt,
        ) in
        r in
    elim (Bool-cases (leb l chunk)) [
      | inl t ↦
          let le = leb→le l chunk t in
          let small : chunk - l < tp_size = omega arith in
          let hit : chunk_of l tp_size (chunk - l) ≡ chunk =
            omega
              (arith, chunk_eq (chunk - l) small, add-mod_wrap (chunk - l) l tp_size small l_lt) in
          (chunk - l, small, hit, λ other j e. unique other (chunk - l) j small e hit)
      | inr g ↦
          let over : chunk < l = ground arith in
          let small : chunk + tp_size - l < tp_size = omega arith in
          let hit : chunk_of l tp_size (chunk + tp_size - l) ≡ chunk = omega (
            arith,
            chunk_eq (chunk + tp_size - l) small,
            add-mod_wrap (chunk + tp_size - l) l tp_size small l_lt,
          ) in
          (
            chunk + tp_size - l,
            small,
            hit,
            λ other j e. unique other (chunk + tp_size - l) j small e hit,
          )
    ]
