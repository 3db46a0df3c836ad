-- ===== src/Policy/Env.antt =====
-- The readers of environment variables in src/vllm_exl3/prefill_policy.py, runtime_policy.py,
-- deepseek_v41.py and exl3.py. The value of a variable is an argument, `none` where it is unset.
use vllm_exl.Prelude.{
  suc, Bool, true, false, Option, none, some, List, [], ◌∷◌, if◌then◌else◌, ltb, map, ℤ, pos,
  negsuc,
}
use vllm_exl.Prelude.Text.{Text, text, among, affirmative, strip, lower, int}

abbrev pub negative : List Text
negative = text "0" ∷ text "false" ∷ text "no" ∷ text "off" ∷ text "" ∷ []

-- `_env_enabled` of prefill_policy.py
unfoldable pub env_enabled : Option Text → Bool → Bool
env_enabled none default = default
env_enabled (some raw) default =
    if among (lower (strip raw)) affirmative
    then true
    else if among (lower (strip raw)) negative
    then false
    else default

-- `_env_enabled` of deepseek_v41.py
unfoldable pub env_affirmed : Option Text → Bool → Bool
env_affirmed none default = default
env_affirmed (some raw) default = among (lower (strip raw)) affirmative

-- `value if value > 0 else default`, where the text was a number
abbrev pub positive_or : ℤ → Option ℤ → ℤ
positive_or default (some (pos (suc n))) = pos (suc n)
positive_or default _ = default

-- `_positive_int_env`, of prefill_policy.py and of runtime_policy.py
unfoldable pub positive_int_env : Option Text → ℤ → ℤ
positive_int_env none default = default
positive_int_env (some raw) default = positive_or default (int raw)

-- `_env_int_override` of exl3.py, from the values of the variables in order
abbrev pub too_small : Option ℤ → ℤ → Bool
too_small none z = false
too_small (some (pos m)) (pos n) = ltb n m
too_small (some (pos m)) (negsuc n) = true
too_small (some (negsuc m)) (pos n) = false
too_small (some (negsuc m)) (negsuc n) = ltb m n

abbrev pub first_valid : ℤ → Option ℤ → List (Option ℤ) → ℤ
first_valid default minimum [] = default
first_valid default minimum (none ∷ vs) = first_valid default minimum vs
first_valid default minimum (some v ∷ vs) =
    if too_small minimum v then first_valid default minimum vs else v

abbrev pub read_int : Option Text → Option ℤ
read_int none = none
read_int (some raw) = int raw

unfoldable pub env_int_override : ℤ → List (Option Text) → Option ℤ → ℤ
env_int_override default values minimum = first_valid default minimum (map read_int values)
