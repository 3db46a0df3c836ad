-- ===== src/Nvme/Bank/Tests.antt =====
-- A bank of one record with the smallest projections, and the theorems at it.
use vllm_exl.Prelude.{
  ℕ, ◌+◌, ◌≤◌, ◌≡◌, refl, true, false, some, [], ◌∷◌, List, length, ok, raise, value_error, arith,
}
use vllm_exl.Nvme.Reads.Defs.{Bytes, Store, Reading, zeros, begin_read}
use vllm_exl.Nvme.Reads.Filled.{length-zeros}
use vllm_exl.Nvme.Reads.Samples.{whole_file, whole_file-Faithful, whole_file-Settles}
use vllm_exl.Nvme.Reads.Records.{OnPage, Begun}
use vllm_exl.Nvme.Bank.Defs.{
  i16, f16, i32, Tensors, Record, tensor_at, prod, projection, all_present, validate_tensors,
  insert_tensor, sort_tensors, insert_record, sort_records, check_tensors, check_records, accept,
}
use vllm_exl.Nvme.Bank.Tiling.{Tiles, accept-Tiles}
use vllm_exl.Nvme.Bank.Served.{accept-read}

program : Unit {0}
unfolding tensor_at prod projection all_present validate_tensors insert_tensor sort_tensors
    insert_record sort_records check_tensors check_records accept
program = tt

abbrev four : ℕ → ℕ → Tensors → Tensors
four name at_ rest =
    (name, record { dtype = i16; shape = 8 ∷ 8 ∷ 32 ∷ []; offset = at_; bytes = 4096 })
    ∷ (name + 1, record { dtype = f16; shape = 128 ∷ []; offset = at_ + 4096; bytes = 256 })
    ∷ (name + 2, record { dtype = f16; shape = 128 ∷ []; offset = at_ + 4352; bytes = 256 })
    ∷ (name + 3, record { dtype = i32; shape = []; offset = at_ + 4608; bytes = 4 })
    ∷ rest

abbrev page : Record
page = record {
  layer = 3;
  expert = 5;
  extent = record { offset = 0; bytes = 16384; sha256 = 0 };
  tensors = four 4 4864 (four 0 0 (four 8 9728 []));
}

abbrev bank : List Record
bank = page ∷ []

accepted : accept true true 67108864 bank 16384 16384 true true ≡ ok tt
unfolding program
accepted = refl

short : accept true true 67108864 bank 16384 12288 true true ≡ raise value_error
unfolding program
short = refl

abbrev length_of_bank : ℕ
length_of_bank = 16384

accept-Tiles_example :
    (length_of_bank ≡ length_of_bank) × Tiles 67108864 0 (sort_records bank) 16384
accept-Tiles_example = accept-Tiles true true 67108864 bank 16384 16384 true true accepted

abbrev file : Bytes
file = zeros 16384

abbrev store : Store
store = record {
  opened = true;
  reads = 0;
  bytes_read = 0;
  active_reads = 0;
  peak_staging_bytes = 0;
}

abbrev hash : Bytes → ℕ
hash bytes = 0

accepted_file : accept true true 67108864 bank 16384 (length file) true true ≡ ok tt
accepted_file = rw (length-zeros 16384) accepted

accept-read_example :
    (page.extent.offset + page.extent.bytes ≤ length file)
    × ((o : Reading) × (begin_read
            (whole_file file)
            hash
            (λ t. false)
            false
            false
            true
            20000
            (some page.extent)
            store
          ≡ some o)
        × Begun hash file page.extent store o)
accept-read_example =
    accept-read true true 67108864 bank 16384 true true file (whole_file file) hash (λ t. false)
      false false 0 accepted_file (whole_file-Faithful (OnPage true) file) (whole_file-Settles file)
      0 page store 20000 refl (omega arith)
