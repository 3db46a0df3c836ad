-- ===== src/Nvme/Reads/Samples.antt =====
-- Calls that read all that a file has of what they are asked for, for the tests.
use vllm_exl.Prelude.{ℕ, zero, suc, ◌≤◌, ◌≡◌, refl, ap, sym, [], ◌∷◌, length, take, drop, arith}
use vllm_exl.Nvme.Reads.Defs.{Bytes, Pread, signal, failure, chunk}
use vllm_exl.Nvme.Reads.Filled.{Faithful, Settles}

abbrev pub whole_file : Bytes → Pread
whole_file file offset size time = chunk (take size (drop offset file))

pub chunk-injective : (a b : Bytes) → chunk a ≡ chunk b → a ≡ b
chunk-injective a b h = ap (λ c. elim c [ signal ↦ [] | failure ↦ [] | chunk d ↦ d ]) h

take-shorter :
    (n : ℕ) (xs : Bytes) → (length (take n xs) ≤ n) × (take n xs ≡ take (length (take n xs)) xs)
take-shorter zero xs = (omega arith, refl)
take-shorter (suc n) [] = (omega arith, refl)
take-shorter (suc n) (x ∷ xs) =
    let (a, b) = take-shorter n xs in (omega (arith, a), ap (λ t. x ∷ t) b)

pub whole_file-Faithful :
    (Allowed : ℕ → Type 0) (file : Bytes) → Faithful Allowed file (whole_file file)
whole_file-Faithful Allowed file offset size time part a h =
    rw (sym (chunk-injective _ part h)) (take-shorter size (drop offset file))

pub whole_file-Settles : (file : Bytes) → Settles 0 (whole_file file)
whole_file-Settles file offset size time h = λ e. absurd (ground arith)
