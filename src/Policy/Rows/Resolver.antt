-- ===== src/Policy/Rows/Resolver.antt =====
-- The arity of the calls that `_exl3_moe_tail` makes.
use vllm_exl.Prelude.{ℕ, ◌+◌, List, length}
use vllm_exl.Policy.Rows.Defs.{Arg}

-- how many arguments a call passes: 30 and the tail
abbrev pub passed : List Arg → ℕ
passed tail = 30 + length tail
