-- ===== src/Nvme/Engram/Store.antt =====
-- The ordered dict of cached rows of `EngramRows`, experiments/dsv41_nvme/engram_rows.py, as a list
-- in its order, with the scan of a request's keys and the loop that stores what was read.
use vllm_exl.Prelude.{
  ℕ, ◌+◌, ◌==◌, Option, none, some, List, [], ◌∷◌, ◌++◌, leb, if◌then◌else◌, length, drop,
}
use vllm_exl.Nvme.Reads.Defs.{Bytes}

abbrev pub Table : Type 0
Table = List (ℕ × Bytes)

-- `cache[key]`, or `payloads[key]`
unfoldable pub lookup : ℕ → Table → Option Bytes
lookup k [] = none
lookup k ((j, d) ∷ c) = if k == j then some d else lookup k c

unfoldable pub remove : ℕ → Table → Table
remove k [] = []
remove k ((j, d) ∷ c) = if k == j then c else (j, d) ∷ remove k c

-- `cache[key] = data`
unfoldable pub put : ℕ → Bytes → Table → Table
put k d [] = (k, d) ∷ []
put k d ((j, e) ∷ c) = if k == j then (j, d) ∷ c else (j, e) ∷ put k d c

-- `cache.move_to_end(key)` of a row that is there
abbrev pub move_to_end : ℕ → Bytes → Table → Table
move_to_end k d c = remove k c ++ (k, d) ∷ []

-- the rows that are cached, the keys that are missing, and the cache after the moves
pub record Scan : Type 0 where
  pub payloads : Table
  pub missing : List ℕ
  pub cache : Table

abbrev with_payload : ℕ → Bytes → Scan → Scan
with_payload k d s = record s { payloads = (k, d) ∷ s.payloads }

abbrev with_missing : ℕ → Scan → Scan
with_missing k s = record s { missing = k ∷ s.missing }

-- the loop over the keys of a request
unfoldable pub scan : List ℕ → Table → Scan
unfolding lookup remove
scan [] c = record { payloads = []; missing = []; cache = c }
scan (k ∷ ks) c = elim (lookup k c) [
  | none ↦ with_missing k (scan ks c)
  | some d ↦ with_payload k d (scan ks (move_to_end k d c))
]

-- the cache and its count of evictions
abbrev pub Counted : Type 0
Counted = Table × ℕ

-- a row that was read goes to the end, and the oldest goes where the cache is full
unfoldable pub keep : ℕ → ℕ → Bytes → Counted → Counted
unfolding put
keep capacity k d (c, evictions) =
    if leb capacity (length c) then (put k d (drop 1 c), evictions + 1) else (put k d c, evictions)

-- the loop over the rows that were read
unfoldable pub keep_all : ℕ → Table → Counted → Counted
unfolding keep
keep_all capacity [] c = c
keep_all capacity ((k, d) ∷ rows) c = keep_all capacity rows (keep capacity k d c)
