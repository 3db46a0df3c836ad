-- ===== src/Nvme/Reads/Defs.antt =====
-- The loops that fill a buffer from a file: `EngramRows._read` of
-- experiments/dsv41_nvme/engram_rows.py, and the loop that `ExpertStore.read` of expert_store.py
-- and `AsyncExpertStore._fetch` of async_store.py share. The system call is an argument: its
-- answer depends on the offset, the size and the time. A byte is a number.
use vllm_exl.Prelude.{
  ℕ, zero, suc, ◌+◌, ◌-◌, ◌%◌, ◌^◌, min, max, ◌==◌, Bool, true, false, ◌&&◌, not, Option, none,
  some, List, [], ◌∷◌, ◌++◌, ltb, if◌then◌else◌, Result, ok, raise, os_error, interrupted,
  value_error, runtime_error, key_error, length, take, drop,
}

abbrev pub Bytes : Type 0
Bytes = List ℕ

-- what a call does: `InterruptedError`, another `OSError`, or the bytes that it read
pub data Answer : Type 0 where
  signal failure : Answer
  chunk : Bytes → Answer

-- `pread(fd, size, offset)` at a time
abbrev pub Pread : Type 0
Pread = (offset size time : ℕ) → Answer

-- `bytes(n)`
abbrev pub zeros : ℕ → Bytes
zeros zero = []
zeros (suc n) = 0 ∷ zeros n

-- `data[got:got + len(part)] = part`
abbrev pub splice : Bytes → ℕ → Bytes → Bytes
splice data_ got part = take got data_ ++ part ++ drop (got + length part) data_

-- the file's bytes from an offset
abbrev pub extract : Bytes → ℕ → ℕ → Bytes
extract file offset n = take n (drop offset file)

-- the loop of `EngramRows._read`; `none` where the fuel runs out
unfoldable pub read_rest : Pread → ℕ → ℕ → ℕ → ℕ → ℕ → Bytes → Option (Result Bytes)
read_rest pread zero time offset size got data_ = none
read_rest pread (suc fuel) time offset size got data_ = elim (ltb got size) [
  | false ↦ some (ok data_)
  | true ↦ elim (pread (offset + got) (size - got) time) [
    | signal ↦ read_rest pread fuel (suc time) offset size got data_
    | failure ↦ some (raise os_error)
    | chunk [] ↦ some (raise os_error)
    | chunk (b ∷ bs) ↦
        read_rest pread fuel (suc time) offset size (got + suc (length bs))
          (splice data_ got (b ∷ bs))
  ]
]

-- `EngramRows._read`
unfoldable pub read_row : Pread → ℕ → ℕ → ℕ → Option (Result Bytes)
unfolding read_rest
read_row pread fuel offset size = read_rest pread fuel 0 offset size 0 (zeros size)

-- how many bytes a call asks for: all that are left, or at most a MiB of a buffered file
abbrev pub request : Bool → ℕ → ℕ
request true left = left
request false left = min (2 ^ 20) left

-- a partial direct read that does not end on a page
abbrev pub misaligned : Bool → ℕ → ℕ → Bool
misaligned direct got size = direct && ltb got size && not (got % 4096 == 0)

-- the loop over a record: what it read and how much; `cancel` is the answer of `cancel.is_set()`,
-- or of `ticket.cancelled()`, at a time
unfoldable pub fill :
    Pread → (ℕ → Bool) → Bool → ℕ → ℕ → ℕ → ℕ → ℕ → Bytes → Option (Result (Bytes × ℕ))
fill pread cancel direct zero time offset size got data_ = none
fill pread cancel direct (suc fuel) time offset size got data_ = elim (ltb got size) [
  | false ↦ some (ok (data_, got))
  | true ↦ elim (cancel time) [
    | true ↦ some (raise interrupted)
    | false ↦ elim (pread (offset + got) (request direct (size - got)) time) [
      | signal ↦ elim (cancel (suc time)) [
        | true ↦ some (raise interrupted)
        | false ↦ fill pread cancel direct fuel (time + 2) offset size got data_
      ]
      | failure ↦ some (raise os_error)
      | chunk [] ↦ some (raise os_error)
      | chunk (b ∷ bs) ↦ elim (misaligned direct (got + suc (length bs)) size) [
        | true ↦ some (raise os_error)
        | false ↦
            fill pread cancel direct fuel (time + 2) offset size (got + suc (length bs))
              (splice data_ got (b ∷ bs))
      ]
    ]
  ]
]

-- a record of the bank: where it stands and its digest
pub record Extent : Type 0 where
  pub offset : ℕ
  pub bytes : ℕ
  pub sha256 : ℕ

-- the counts of an `ExpertStore`
pub record Store : Type 0 where
  pub opened : Bool
  pub reads : ℕ
  pub bytes_read : ℕ
  pub active_reads : ℕ
  pub peak_staging_bytes : ℕ

abbrev pub Reading : Type 0
Reading = Result Bytes × Store

abbrev pub started : Extent → Store → Store
started x s = record s {
  active_reads = s.active_reads + 1;
  peak_staging_bytes = max s.peak_staging_bytes x.bytes;
}

-- the `finally` of `ExpertStore.read`
abbrev pub ended : Store → Store
ended s = record s { active_reads = s.active_reads - 1 }

abbrev counted : ℕ → Store → Store
counted got s = record s { reads = s.reads + 1; bytes_read = s.bytes_read + got }

-- the end of the `try`, up to the `yield`
abbrev verified : (Bytes → ℕ) → Bool → Extent → Bytes → Store → Reading
verified hash cancelled x buffer s =
    if not (hash buffer == x.sha256)
    then (raise value_error, ended s)
    else if cancelled
    then (raise interrupted, ended s)
    else (ok buffer, s)

abbrev pub filled :
    (Bytes → ℕ) → Bool → Extent → Store → Option (Result (Bytes × ℕ)) → Option Reading
filled hash cancelled x s none = none
filled hash cancelled x s (some (raise e)) = some (raise e, ended s)
filled hash cancelled x s (some (ok (buffer, got))) =
    some (verified hash cancelled x buffer (counted got s))

-- `ExpertStore.read` up to its `yield`, of a key whose record is `x`; `before` and `after` are
-- the answers of `cancel.is_set()` before and after the loop
unfoldable pub begin_read :
    Pread
    → (Bytes → ℕ)
    → (ℕ → Bool)
    → Bool
    → Bool
    → Bool
    → ℕ
    → Option Extent
    → Store
    → Option Reading
unfolding fill
begin_read pread hash cancel before after direct fuel none s =
    if not s.opened then some (raise runtime_error, s) else some (raise key_error, s)
begin_read pread hash cancel before after direct fuel (some x) s =
    if not s.opened
    then some (raise runtime_error, s)
    else if before
    then some (raise interrupted, s)
    else filled hash after x (started x s)
        (fill pread cancel direct fuel 0 x.offset x.bytes 0 (zeros x.bytes))
