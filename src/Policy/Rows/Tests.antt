-- ===== src/Policy/Rows/Tests.antt =====
-- The resolver with one variable set, and the theorems at it.
use vllm_exl.Prelude.{
  none, ℕ, ◌≡◌, refl, true, false, Option, none, some, [], ◌∷◌, ◌==◌, if◌then◌else◌, pos, ok,
}
use vllm_exl.Prelude.Text.{text, is_space, lstrip, strip, digits, signed, int}
use vllm_exl.Prelude.Values.{int_value, int_of}
use vllm_exl.Policy.Rows.Defs.{
  PerBit, Resolver, native_row_cap, Module, install_native_row_policy, measured_cap,
  native_moe_max_rows, Geometry, native_moe_dimensions_supported, uniform_tail, exl3_moe_tail,
  all_k, every_entry, expert_k_census_supported,
}

program : Unit {0}
unfolding is_space lstrip strip digits signed int int_of native_row_cap install_native_row_policy
    measured_cap native_moe_max_rows native_moe_dimensions_supported uniform_tail exl3_moe_tail
    all_k every_entry expert_k_census_supported
program = tt

abbrev only_k3 : PerBit
only_k3 bits = if bits == 3 then some (text " 4 ") else none

abbrev base : Resolver
base bits = pos 8

abbrev fresh : Module
fresh = record {
  per_bit_policy_installed = false;
  native_moe_max_rows = some base;
  native_row_cap_base = none;
}

capped : native_row_cap only_k3 3 base ≡ 4
unfolding program
capped = refl

fallback : native_row_cap only_k3 2 base ≡ 8
unfolding program
fallback = refl

negative : native_moe_max_rows (some (text "-1")) (some (text "1")) 3 ≡ 0
unfolding program
negative = refl

census : expert_k_census_supported ((int_value (pos 9) ∷ [], int_value (pos 1)) ∷ []) ≡ false
unfolding program
census = refl

abbrev decode : Geometry
decode = record {
  dims = 2;
  is_cuda = true;
  limit_good = true;
  rows = 4;
  width = 4096;
  hidden_size = none;
  intermediate_local = some 1024;
  k = none;
  bits = some 3;
  inners = 288;
}

decode_supported : native_moe_dimensions_supported none none decode ≡ true
unfolding program
decode_supported = refl

-- a second installation changes nothing
installed_twice :
    (m : Module) × (install_native_row_policy only_k3 fresh ≡ ok (true, m))
    × (install_native_row_policy only_k3 m ≡ ok (false, m))
unfolding program
installed_twice = (_, refl, refl)

abbrev one_k : Option ℕ
one_k = some 4

abbrev binding : ℕ
binding = 36
