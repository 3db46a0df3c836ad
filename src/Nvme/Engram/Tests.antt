-- ===== src/Nvme/Engram/Tests.antt =====
-- Two tables of two rows whose weights stand one byte into the file, an object that caches one
-- row, and the theorems at it.
use vllm_exl.Prelude.{
  ℕ, zero, suc, ◌≡◌, refl, true, false, none, some, List, [], ◌∷◌, ◌++◌, take, drop, length, arith,
  ok, raise, os_error, pos,
}
use vllm_exl.Prelude.Values.{Value, int_value, bool_value}
use vllm_exl.Nvme.Reads.Defs.{Bytes, read_rest, read_row}
use vllm_exl.Nvme.Reads.Rows.{Anywhere}
use vllm_exl.Nvme.Reads.Samples.{whole_file, whole_file-Faithful, whole_file-Settles}
use vllm_exl.Nvme.Engram.Store.{lookup, remove, put, scan, keep, keep_all}
use vllm_exl.Prelude.Keys.{member, distinct}
use vllm_exl.Nvme.Engram.Defs.{
  Disk, Signature, Layout, Engram, validate, read_pair, read_batch, batches, read_batches, fetch,
  owned_rows, count_owned, add_all, assemble, payloads,
}
use vllm_exl.Nvme.Engram.Calls.{
  Output, ids_eq, masks_eq, prefetch, write, gather_into, close, init, no_stats,
}
use vllm_exl.Nvme.Engram.Fetch.{Honest}
use vllm_exl.Nvme.Engram.Payloads.{Extents, Valid}
use vllm_exl.Nvme.Engram.Gather.{Gathers, gather_into-Gathered}
use vllm_exl.Nvme.Engram.History.{started, Reaches-Valid}

program : Unit {0}
unfolding read_rest read_row lookup remove put scan keep keep_all validate read_pair read_batch
    batches read_batches fetch member distinct owned_rows count_owned add_all assemble payloads
    ids_eq masks_eq prefetch write gather_into close init
program = tt

abbrev fill_with : ℕ → ℕ → Bytes
fill_with b zero = []
fill_with b (suc n) = b ∷ fill_with b n

abbrev w_file : Bytes
w_file = 9 ∷ (fill_with 1 256 ++ fill_with 2 256)

abbrev s_file : Bytes
s_file = fill_with 3 8 ++ fill_with 4 8

abbrev disk : Disk
disk = record {
  weights = whole_file w_file;
  scales = whole_file s_file;
  known = true;
  same = true;
  unchanged = true;
}

abbrev layout : Layout
layout = record { w_offset = 1; s_offset = 0; rows = 2; capacity = 1 }

abbrev object : Engram
object = record { layout = layout; cache = []; pending = none; closed = false; stats = no_stats }

disk-Honest : Honest w_file s_file 0 disk
disk-Honest = record {
  weights = whole_file-Faithful Anywhere w_file;
  scales = whole_file-Faithful Anywhere s_file;
  weights_settle = whole_file-Settles w_file;
  scales_settle = whole_file-Settles s_file;
}

object-Extents : Extents w_file s_file layout
object-Extents = record { weights = omega arith; scales = omega arith }

object-Valid : Valid w_file s_file object
object-Valid = record {
  inside = object-Extents;
  sound = tt;
  positive = omega arith;
  within = omega arith;
  peak = omega arith;
  brought = tt;
}

-- row 1, then row 0 that is not owned
abbrev rows : List Value
rows = int_value (pos 1) ∷ int_value (pos 0) ∷ []

abbrev owned : List Value
owned = bool_value true ∷ bool_value false ∷ []

abbrev signature : Signature
signature = (1 ∷ 0 ∷ [], true ∷ false ∷ [])

abbrev out : Output
out = record { weight = fill_with 7 512; scale = fill_with 7 16; readonly = false }

served :
    (elim (gather_into disk 300 rows owned out object) [
      | none ↦ none
      | some (ok o, s) ↦ some (take 2 o.weight ++ take 1 (drop 256 o.weight) ++ o.scale)
      | some (raise e, s) ↦ none
    ])
    ≡ some (2 ∷ 2 ∷ 0 ∷ (fill_with 4 8 ++ fill_with 0 8))
unfolding program
served = refl

gather_into-Gathered_example :
    Gathers w_file s_file rows owned object (gather_into disk 300 rows owned out object)
gather_into-Gathered_example =
    gather_into-Gathered w_file s_file disk 0 disk-Honest 300 (omega arith) rows owned out object
      object-Valid

abbrev failed : Engram
failed = record object { pending = some (signature, raise os_error) }

valid_rows : validate rows owned failed ≡ ok signature
unfolding program
valid_rows = refl

-- the gather raises what the prefetch raised
raised_again : gather_into disk 300 rows owned out failed ≡ some (raise os_error, failed)
unfolding program
raised_again = refl

abbrev limits : Value
limits = int_value (pos 1)

opened :
    init (pos 1) (pos 0) (pos 2) 256 8 limits limits (length w_file) (length s_file) ≡ ok object
unfolding program
opened = refl

Reaches-Valid_example : Valid w_file s_file object
Reaches-Valid_example =
    Reaches-Valid w_file s_file object (started (pos 1) (pos 0) (pos 2) 256 8 limits limits opened)
