-- ===== src/Nvme/Async/History.antt =====
-- The histories of an `AsyncExpertStore`, experiments/dsv41_nvme/async_store.py: the constructor
-- and any sequence of operations, of whatever threads, each with its own outcome of the readers.
use vllm_exl.Prelude.{
  ℕ, ◌≡◌, refl, ap, sym, ◌==◌, Bool, true, false, ◌&&◌, some, List, leb, arith, Bool-cases, inl,
  inr, ok, raise,
}
use mathlib.Core.Path.{subst}
use vllm_exl.Nvme.Async.Defs.{
  Ticket, Async, Outcome, Settled, find, plan, claim, finish, close, new_store, init,
}
use vllm_exl.Nvme.Async.Steps.{Valid, Step}
use vllm_exl.Nvme.Async.Operations.{plan-Step, claim-Step, finish-Step, close-Step}

pub data Operation : Type 0 where
  planning : List ℕ → Operation
  claiming : Bool → ℕ → Operation
  finishing : Bool → ℕ → Operation
  closing : Operation

abbrev pub run : (ℕ → Bool) → (ℕ → Settled) → Operation → Async → Outcome
run known outcome (planning asked) s = plan known outcome asked s
run known outcome (claiming stopped k) s = claim known outcome stopped k s
run known outcome (finishing viewed k) s = finish viewed k s
run known outcome closing s = close outcome s

-- whether an operation ends the lease of a key
abbrev pub ends : Operation → ℕ → Bool
ends (finishing viewed k) j = j == k
ends (planning asked) j = false
ends (claiming stopped k) j = false
ends closing j = false

pub data Leads (known : ℕ → Bool) : Async → Type 0 where
  started : {s : Async} (slots : ℕ) → init slots ≡ ok s → Leads known s
  stepped :
      (s : Async) (outcome : ℕ → Settled) (o : Operation)
      → Leads known s
      → Leads known (run known outcome o s).1

run-Step :
    (known : ℕ → Bool) (outcome : ℕ → Settled) (o : Operation) (s : Async)
    → Valid known s
    → Step known (ends o) s (run known outcome o s).1
run-Step known outcome (planning asked) s v = plan-Step known (λ j. false) outcome asked s
run-Step known outcome (claiming stopped k) s v =
    claim-Step known (λ j. false) outcome stopped k s v
run-Step known outcome (finishing viewed k) s v =
    finish-Step known (λ j. j == k) viewed k s (ground arith) v
run-Step known outcome closing s v = close-Step known (λ j. false) outcome s

ok-injective : (a b : Async) → ok a ≡ ok b → a ≡ b
ok-injective a b h = ap (λ r. elim r [ ok x ↦ x | raise e ↦ a ]) h

init-Valid : (known : ℕ → Bool) (slots : ℕ) (s : Async) → init slots ≡ ok s → Valid known s
unfolding init
init-Valid known slots s h = elim (Bool-cases (leb 1 slots && leb slots 2)) [
  | inr f ↦ absurd (ground arith)
  | inl t ↦
      let same : ok (new_store slots) ≡ ok s = rw (sym h, init, t) refl in
      subst (Valid known) (ok-injective (new_store slots) s same) (record {
        bound = omega arith;
        few = ground arith;
        peak = omega arith;
        unique = tt;
        known_tickets = tt;
        known_queue = tt;
      })
]

-- Whatever operations are called, in whatever order, and however the readers end: no more than the
-- slots, and so no more than two records, are pending now or ever were, none of them twice, and
-- every key that is pending or in the queue is in the records.
pub Leads-Valid : (known : ℕ → Bool) (s : Async) → Leads known s → Valid known s
Leads-Valid known s (started slots h) = init-Valid known slots s h
Leads-Valid known s' (stepped s outcome o h) =
    let v = Leads-Valid known s h in (run-Step known outcome o s v).valid v

-- Of a store that operations led to, no operation but the end of its own lease takes away a ticket
-- that is claimed or changes it, however the readers end.
pub run-kept :
    (known : ℕ → Bool) (s : Async)
    → Leads known s
    → (outcome : ℕ → Settled) (o : Operation) (k : ℕ) (t : Ticket) → ends o k ≡ false
    → find k s.pending ≡ some t
    → t.claimed ≡ true
    → find k (run known outcome o s).1.pending ≡ some t
run-kept known s h outcome o k t e f c =
    (run-Step known outcome o s (Leads-Valid known s h)).kept k t e f c
