-- ===== src/Nvme/Reads/Tests.antt =====
-- A file of two pages of which a signal interrupts the first call, and the theorems at it.
use vllm_exl.Prelude.{
  ℕ, ◌≡◌, refl, true, false, some, [], ◌∷◌, ok, raise, length, sum, os_error, ◌≤◌, ◌≢◌, arith, zero,
  suc, take, drop, sym,
}
use vllm_exl.Nvme.Reads.Defs.{
  Bytes, Pread, Answer, signal, failure, chunk, Extent, Store, read_rest, read_row, fill,
  begin_read,
}
use vllm_exl.Nvme.Reads.Samples.{chunk-injective}
use vllm_exl.Nvme.Reads.Filled.{Faithful, Settles}

program : Unit {0}
unfolding read_rest read_row fill begin_read
program = tt

abbrev file : Bytes
file = 7 ∷ 8 ∷ 9 ∷ 10 ∷ []

-- at most two bytes a call, and a signal first
abbrev served : ℕ → Bytes → Answer
served zero left = chunk []
served (suc zero) [] = chunk []
served (suc zero) (b ∷ bs) = chunk (b ∷ [])
served (suc (suc n)) [] = chunk []
served (suc (suc n)) (b ∷ []) = chunk (b ∷ [])
served (suc (suc n)) (b ∷ c ∷ bs) = chunk (b ∷ c ∷ [])

abbrev calls : Pread
calls offset size zero = signal
calls offset size (suc time) = served size (drop offset file)

row : read_row calls 6 1 3 ≡ some (ok (8 ∷ 9 ∷ 10 ∷ []))
unfolding program
row = refl

beyond : read_row calls 9 2 3 ≡ some (raise os_error)
unfolding program
beyond = refl

-- a prefix no longer than asked for
abbrev Prefix : ℕ → Bytes → Bytes → Type 0
Prefix size left part = (length part ≤ size) × (part ≡ take (length part) left)

served-Prefix :
    (size : ℕ) (left part : Bytes) → served size left ≡ chunk part → Prefix size left part
served-Prefix zero left part h = rw (sym (chunk-injective [] part h)) (omega arith, refl)
served-Prefix (suc zero) [] part h = rw (sym (chunk-injective [] part h)) (omega arith, refl)
served-Prefix (suc zero) (b ∷ bs) part h =
    rw (sym (chunk-injective (b ∷ []) part h)) (omega arith, refl)
served-Prefix (suc (suc n)) [] part h = rw (sym (chunk-injective [] part h)) (omega arith, refl)
served-Prefix (suc (suc n)) (b ∷ []) part h =
    rw (sym (chunk-injective (b ∷ []) part h)) (omega arith, refl)
served-Prefix (suc (suc n)) (b ∷ c ∷ bs) part h =
    rw (sym (chunk-injective (b ∷ c ∷ []) part h)) (omega arith, refl)

calls-Faithful : (Allowed : ℕ → Type 0) → Faithful Allowed file calls
calls-Faithful Allowed offset size zero part a h = absurd (ground arith)
calls-Faithful Allowed offset size (suc time) part a h =
    served-Prefix size (drop offset file) part h

served-answers :
    (size : ℕ) (left : Bytes) → (served size left ≢ signal) × (served size left ≢ failure)
served-answers zero left = (λ h. absurd (ground arith), λ h. absurd (ground arith))
served-answers (suc zero) [] = (λ h. absurd (ground arith), λ h. absurd (ground arith))
served-answers (suc zero) (b ∷ bs) = (λ h. absurd (ground arith), λ h. absurd (ground arith))
served-answers (suc (suc n)) [] = (λ h. absurd (ground arith), λ h. absurd (ground arith))
served-answers (suc (suc n)) (b ∷ []) = (λ h. absurd (ground arith), λ h. absurd (ground arith))
served-answers (suc (suc n)) (b ∷ c ∷ bs) = (λ h. absurd (ground arith), λ h. absurd (ground arith))

calls-Settles : Settles 1 calls
calls-Settles offset size zero h = absurd (omega arith)
calls-Settles offset size (suc time) h = (served-answers size (drop offset file)).0

abbrev extent : Extent
extent = record { offset = 0; bytes = 4; sha256 = 34 }

abbrev store : Store
store = record {
  opened = true;
  reads = 0;
  bytes_read = 0;
  active_reads = 0;
  peak_staging_bytes = 0;
}

-- buffered, the record is read
whole :
    begin_read calls sum (λ t. false) false false false 6 (some extent) store
    ≡ some (
      ok file,
      record store { reads = 1; bytes_read = 4; active_reads = 1; peak_staging_bytes = 4 },
    )
unfolding program
whole = refl

-- direct, two bytes are no page
partial :
    begin_read calls sum (λ t. false) false false true 6 (some extent) store
    ≡ some (raise os_error, record store { peak_staging_bytes = 4 })
unfolding program
partial = refl
