-- ===== src/Nvme/Engram/Pending.antt =====
-- The prefetch that may be pending in `EngramRows`, experiments/dsv41_nvme/engram_rows.py.
use vllm_exl.Prelude.{
  ℕ, ◌+◌, ◌<◌, ◌≡◌, refl, false, Option, none, some, List, inl, inr, Result, ok, Result-cases,
}
use vllm_exl.Prelude.Values.{Value}
use vllm_exl.Nvme.Reads.Defs.{Bytes}
use vllm_exl.Nvme.Engram.Defs.{Disk, Signature, Payloads, Engram, Outcome, dim, validate}
use vllm_exl.Nvme.Engram.Calls.{prefetch_of, prefetch}
use vllm_exl.Nvme.Engram.Fetch.{Honest}
use vllm_exl.Nvme.Engram.Payloads.{Valid, payloads-Answers}
use vllm_exl.Nvme.Engram.Written.{validate-Validated}

-- a call that ends and leaves the object valid
abbrev pub Keeps : Bytes → Bytes → Option (Outcome (Unit {0})) → Type 0
Keeps w_file s_file o = (r : Outcome (Unit {0})) × (o ≡ some r) × Valid w_file s_file r.1

-- Where the calls read what the files hold and no signal interrupts them from the time `limit` on,
-- `prefetch` of a valid object ends for fuel above `limit` and a row of weights, whatever rows and
-- mask it is given, and leaves the object valid.
pub prefetch-Valid :
    (w_file s_file : Bytes) (disk : Disk) (limit : ℕ)
    → Honest w_file s_file limit disk
    → (fuel : ℕ) → limit + dim < fuel
    → (rows owned : List Value) (s : Engram) → Valid w_file s_file s
    → Keeps w_file s_file (prefetch disk fuel rows owned s)
unfolding prefetch
prefetch-Valid w_file s_file disk limit honest fuel enough rows owned s v =
    elim (Result-cases (validate rows owned s)) [
      | inr (e, h) ↦ rw h (_, refl, v)
      | inl (signature, h) ↦
          let checked = validate-Validated rows owned s signature h in
          rw h (pending_round signature checked.opened s.pending refl)
    ]
  where
    pending_round :
        (signature : Signature)
        → s.closed ≡ false
        → (p : Option (Signature × Result Payloads)) → s.pending ≡ p
        → Keeps w_file s_file (prefetch_of disk fuel (ok signature) s)
    pending_round signature opened (some p) m = rw (prefetch_of, m) (_, refl, v)
    pending_round signature opened none m =
        let (r, ran, right, valid, l, q, c) =
          payloads-Answers w_file s_file disk limit honest fuel enough signature s opened v in
        rw (prefetch_of, m, ran)
          (
            _,
            refl,
            record {
              inside = valid.inside;
              sound = valid.sound;
              positive = valid.positive;
              within = valid.within;
              peak = valid.peak;
              brought = rw l right;
            },
          )
