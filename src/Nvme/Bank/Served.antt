-- ===== src/Nvme/Bank/Served.antt =====
-- The reads of a bank whose manifest the constructor accepts, experiments/dsv41_nvme/expert_store.py.
use vllm_exl.Prelude.{
  ℕ, zero, suc, ◌+◌, ◌%◌, ◌≤◌, ◌<◌, ◌≡◌, Bool, some, List, [], ◌∷◌, leb, if◌then◌else◌, length, All,
  get_elem?, arith, Bool-cases, inl, inr, ok,
}
use mathlib.Core.Path.{subst}
use vllm_exl.Nvme.Reads.Defs.{Bytes, Pread, Store, Reading, begin_read}
use vllm_exl.Nvme.Reads.Filled.{Faithful, Settles}
use vllm_exl.Nvme.Reads.Records.{OnPage, Begun, begin_read-Begun}
use vllm_exl.Nvme.Bank.Defs.{Record, insert_record, sort_records, accept}
use vllm_exl.Nvme.Bank.Tiling.{Tiles, accept-Tiles}

-- a record on a page, inside the bank
abbrev Placed : ℕ → Record → Type 0
Placed total r = (r.extent.offset % 4096 ≡ 0) × (r.extent.offset + r.extent.bytes ≤ total)

Tiles-le : (most end : ℕ) (rs : List Record) (total : ℕ) → Tiles most end rs total → end ≤ total
Tiles-le most end [] total h = omega (arith, h)
Tiles-le most end (r ∷ rs) total h =
    let rest = Tiles-le most (end + r.extent.bytes) rs total h.8 in omega (arith, rest)

Tiles-Placed :
    (most end : ℕ) (rs : List Record) (total : ℕ)
    → end % 4096 ≡ 0
    → Tiles most end rs total
    → All (Placed total) rs
Tiles-Placed most end [] total p h = tt
Tiles-Placed most end (r ∷ rs) total p h =
    let rest = Tiles-le most (end + r.extent.bytes) rs total h.8 in
    (
      (omega (arith, h.0, p), omega (arith, h.0, rest)),
      Tiles-Placed most (end + r.extent.bytes) rs total (omega (arith, p, h.1)) h.8,
    )

-- what holds of every record holds of every sorted record, and the other way round
insert_record-All :
    (P : Record → Type 0) (r : Record) (rs : List Record)
    → All P (insert_record r rs)
    → P r × All P rs
unfolding insert_record
insert_record-All P r [] h = h
insert_record-All P r (s ∷ rs) h = elim (Bool-cases (leb r.extent.offset s.extent.offset)) [
  | inl t ↦
      let h' : All P (r ∷ s ∷ rs) =
        subst (λ c. All P (if c then r ∷ s ∷ rs else s ∷ insert_record r rs)) t h in
      (h'.0, h'.1)
  | inr f ↦
      let h' : All P (s ∷ insert_record r rs) =
        subst (λ c. All P (if c then r ∷ s ∷ rs else s ∷ insert_record r rs)) f h in
      let (a, b) = insert_record-All P r rs h'.1 in (a, (h'.0, b))
]

sort_records-All : (P : Record → Type 0) (rs : List Record) → All P (sort_records rs) → All P rs
unfolding sort_records
sort_records-All P [] h = tt
sort_records-All P (r ∷ rs) h =
    let (a, b) = insert_record-All P r (sort_records rs) h in (a, sort_records-All P rs b)

All-get :
    (P : Record → Type 0) (rs : List Record) (i : ℕ) (r : Record)
    → All P rs
    → get_elem? rs i ≡ some r
    → P r
All-get P [] i r h g = absurd (ground arith)
All-get P (s ∷ rs) zero r h g = let same : s ≡ r = ground arith in subst P same h.0
All-get P (s ∷ rs) (suc i) r h g = All-get P rs i r h.1 g

-- Of a bank whose manifest the constructor accepts, where the calls read what the file of that size
-- holds, if only at pages when they are direct, and signals interrupt none of them from the time
-- `limit` on: a read of any of its records, whenever it is cancelled, ends for fuel above `limit`
-- and the record's bytes. If it returns, it has exactly the record's bytes, as many as the manifest
-- says, and they have the record's digest; if it raises, as many reads are active as before.
pub accept-read :
    (digest identity : Bool) (max_record_bytes : ℕ) (records : List Record) (bank_bytes : ℕ)
    (direct available : Bool) (file : Bytes) (pread : Pread) (hash : Bytes → ℕ) (cancel : ℕ → Bool)
    (before after : Bool) (limit : ℕ)
    → accept digest identity max_record_bytes records bank_bytes (length file) direct available
      ≡ ok tt
    → Faithful (OnPage direct) file pread
    → Settles limit pread
    → (i : ℕ) (r : Record) (s : Store) (fuel : ℕ) → get_elem? records i ≡ some r
    → limit + r.extent.bytes < fuel
    → (r.extent.offset + r.extent.bytes ≤ length file)
      × ((o : Reading) × (begin_read pread hash cancel before after direct fuel (some r.extent) s
            ≡ some o)
          × Begun hash file r.extent s o)
accept-read digest identity max_record_bytes records bank_bytes direct available file pread hash
      cancel before after limit accepted faithful settles i r s fuel at_i enough =
    let (same, tiles) =
      accept-Tiles digest identity max_record_bytes records bank_bytes (length file) direct
        available accepted in
    let all =
      Tiles-Placed max_record_bytes 0 (sort_records records) (length file) (omega arith) tiles in
    let placed =
      All-get (Placed (length file)) records i r
        (sort_records-All (Placed (length file)) records all) at_i in
    (
      placed.1,
      begin_read-Begun file pread hash cancel before after direct faithful limit settles r.extent s
          fuel (λ d. placed.0) enough,
    )
