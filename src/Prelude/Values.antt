-- ===== src/Prelude/Values.antt =====
-- The Python objects that the code tells apart by `isinstance` before it uses them as numbers.
use mathlib.Core.Bool.{Bool, true, false, ◌&&◌}
use mathlib.Core.List.{List, [], ◌∷◌}
use mathlib.Core.Option.{Option, none, some}
use vllm_exl.Prelude.Numbers.{ℤ, pos, negsuc}
use vllm_exl.Prelude.Errors.{Result, ok, raise, type_error, value_error}
use vllm_exl.Prelude.Text.{Text, int}
use Prim.Native.Nat.{ℕ, zero, suc}

pub data Value : Type 0 where
  none_value other_value : Value
  bool_value : Bool → Value
  int_value : ℤ → Value
  str_value : Text → Value

-- `int(value)`; `none` is an exception. `other_value` is an object without a conversion.
unfoldable pub int_of : Value → Option ℤ
int_of none_value = none
int_of other_value = none
int_of (bool_value true) = some (pos 1)
int_of (bool_value false) = some (pos 0)
int_of (int_value z) = some z
int_of (str_value s) = int s

-- `if isinstance(value, bool) or not isinstance(value, int): raise TypeError`
abbrev pub exact_int : Value → Result ℤ
exact_int (int_value z) = ok z
exact_int (bool_value b) = raise type_error
exact_int none_value = raise type_error
exact_int other_value = raise type_error
exact_int (str_value s) = raise type_error

-- a test `z <= 0`, or `z < 0`, that raises ValueError
abbrev pub positive : ℤ → Result ℕ
positive (pos zero) = raise value_error
positive (pos (suc n)) = ok (suc n)
positive (negsuc n) = raise value_error

abbrev pub non_negative : ℤ → Result ℕ
non_negative (pos n) = ok n
non_negative (negsuc n) = raise value_error

-- `not isinstance(value, bool) and isinstance(value, int)`
abbrev pub is_int : Value → Bool
is_int (int_value z) = true
is_int (bool_value b) = false
is_int none_value = false
is_int other_value = false
is_int (str_value s) = false

-- the number that passed that test
abbrev pub number : Value → ℤ
number (int_value z) = z
number (bool_value b) = pos 0
number none_value = pos 0
number other_value = pos 0
number (str_value s) = pos 0

abbrev pub all_ints : List Value → Bool
all_ints [] = true
all_ints (v ∷ vs) = is_int v && all_ints vs

-- `z <= 0`
abbrev pub not_positive : ℤ → Bool
not_positive (pos zero) = true
not_positive (pos (suc n)) = false
not_positive (negsuc n) = true

-- `z < 0`
abbrev pub is_negative : ℤ → Bool
is_negative (pos n) = false
is_negative (negsuc n) = true
