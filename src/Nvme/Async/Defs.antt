-- ===== src/Nvme/Async/Defs.antt =====
-- `class AsyncExpertStore` of experiments/dsv41_nvme/async_store.py: `_check`, `_submit`, `_fill`,
-- `_discard`, `plan`, both halves of `read`, and `close`. A key is only compared, and is a number.
-- The readers run on threads of their own; what a future brings when it is awaited is an argument
-- of the operation. A ticket is a reference, by its key: what is read of it stands in `pending`,
-- where the operations look it up. The counts that the readers keep are left out.
use vllm_exl.Prelude.{
  ℕ, ◌+◌, max, ◌==◌, Bool, true, false, ◌&&◌, ◌||◌, not, Option, none, some, List, [], ◌∷◌, ◌++◌,
  ltb, leb, if◌then◌else◌, Result, ok, raise, Error, runtime_error, value_error, key_error,
  interrupted, buffer_error, length,
}
use vllm_exl.Prelude.Keys.{member, distinct}

pub record Ticket : Type 0 where
  pub key : ℕ
  pub claimed : Bool

pub record Async : Type 0 where
  pub slots : ℕ
  -- the ordered dict, by the keys of the tickets
  pub pending : List Ticket
  pub queue : List ℕ
  pub closed : Bool
  -- `self.fd is not None`
  pub opened : Bool
  pub submitted : ℕ
  pub prefetched_consumed : ℕ
  pub demand_submitted : ℕ
  pub peak_pending : ℕ

abbrev pub Outcome : Type 0
Outcome = Result (Unit {0}) × Async

-- what waiting for a reader that was told to stop, and releasing its buffer, does: the buffer goes,
-- it was cancelled, it failed, or a view of the buffer is still exported
pub data Settled : Type 0 where
  freed cancelled exported : Settled
  failed : Error → Settled

unfoldable pub find : ℕ → List Ticket → Option Ticket
find k [] = none
find k (t ∷ ts) = if k == t.key then some t else find k ts

-- `key in self.pending`
unfoldable pub has : ℕ → List Ticket → Bool
has k [] = false
has k (t ∷ ts) = k == t.key || has k ts

-- `self.pending.pop(key, None)`
unfoldable pub pop : ℕ → List Ticket → List Ticket
pop k [] = []
pop k (t ∷ ts) = if k == t.key then ts else t ∷ pop k ts

-- a ticket whose `claimed` is set
unfoldable pub mark : Bool → ℕ → List Ticket → List Ticket
mark b k [] = []
mark b k (t ∷ ts) = if k == t.key then record t { claimed = b } ∷ ts else t ∷ mark b k ts

abbrev pub keys_of : List Ticket → List ℕ
keys_of [] = []
keys_of (t ∷ ts) = t.key ∷ keys_of ts

abbrev pub with_ticket : ℕ → Async → Async
with_ticket k s =
    let pending = s.pending ++ record { key = k; claimed = false } ∷ [] in
    record s {
      pending = pending;
      submitted = s.submitted + 1;
      peak_pending = max s.peak_pending (length pending);
    }

-- `_submit`
unfoldable pub submit : ℕ → Async → Outcome
unfolding has
submit k s =
    if leb s.slots (length s.pending) || has k s.pending
    then (raise runtime_error, s)
    else (ok tt, with_ticket k s)

-- `_fill` with these keys in the queue
unfoldable pub fill_queue : List ℕ → Async → Outcome
unfolding submit has
fill_queue [] s = (ok tt, record s { queue = [] })
fill_queue (k ∷ ks) s = elim (ltb (length s.pending) s.slots && not s.closed) [
  | false ↦ (ok tt, record s { queue = k ∷ ks })
  | true ↦ elim (has k s.pending) [
    | true ↦ fill_queue ks s
    | false ↦ elim (submit k (record s { queue = ks })).0 [
      | raise e ↦ (raise e, (submit k (record s { queue = ks })).1)
      | ok u ↦ fill_queue ks (submit k (record s { queue = ks })).1
    ]
  ]
]

-- `_fill`
abbrev pub fill : Async → Outcome
fill s = fill_queue s.queue s

abbrev pub without : ℕ → Async → Async
without k s = record s { pending = pop k s.pending }

abbrev pub settle : ℕ → Settled → Async → Outcome
settle k freed s = (ok tt, without k s)
settle k cancelled s = (ok tt, without k s)
settle k (failed e) s = (raise e, without k s)
settle k exported s = (raise buffer_error, s)

abbrev pub discard_ticket : (ℕ → Settled) → ℕ → Option Ticket → Async → Outcome
discard_ticket outcome k none s = (ok tt, s)
discard_ticket outcome k (some t) s =
    if t.claimed then (raise runtime_error, s) else settle k (outcome k) s

-- `_discard`
unfoldable pub discard : (ℕ → Settled) → ℕ → Async → Outcome
unfolding find pop
discard outcome k s = discard_ticket outcome k (find k s.pending) s

abbrev pub is_claimed : Option Ticket → Bool
is_claimed none = false
is_claimed (some t) = t.claimed

-- the loop of `plan` over the tickets
unfoldable pub discard_others : (ℕ → Settled) → List ℕ → List ℕ → Async → Outcome
unfolding discard member find
discard_others outcome keys [] s = (ok tt, s)
discard_others outcome keys (k ∷ ks) s =
    elim (not (member k keys) && not (is_claimed (find k s.pending))) [
      | false ↦ discard_others outcome keys ks s
      | true ↦ elim (discard outcome k s).0 [
        | raise e ↦ (raise e, (discard outcome k s).1)
        | ok u ↦ discard_others outcome keys ks (discard outcome k s).1
      ]
    ]

-- the keys that are not pending
unfoldable pub not_pending : List ℕ → List Ticket → List ℕ
unfolding has
not_pending [] ts = []
not_pending (k ∷ ks) ts = let rest = not_pending ks ts in if has k ts then rest else k ∷ rest

unfoldable pub all_known : (ℕ → Bool) → List ℕ → Bool
all_known known [] = true
all_known known (k ∷ ks) = known k && all_known known ks

abbrev pub max_plan : ℕ
max_plan = 384

abbrev pub planned : List ℕ → Outcome → Outcome
planned keys (raise e, s) = (raise e, s)
planned keys (ok u, s) =
    fill_queue (not_pending keys s.pending) (record s { queue = not_pending keys s.pending })

-- `plan`; `known` is whether a key is in the records
unfoldable pub plan : (ℕ → Bool) → (ℕ → Settled) → List ℕ → Async → Outcome
unfolding distinct all_known discard_others fill_queue not_pending
plan known outcome asked s =
    let keys = distinct [] asked in
    if ltb max_plan (length keys) || not (all_known known keys)
    then (raise value_error, s)
    else if s.closed || not s.opened
    then (raise runtime_error, s)
    else planned keys (discard_others outcome keys (keys_of s.pending) s)

-- the last ticket that is not claimed
unfoldable pub victim : List Ticket → Option ℕ
victim [] = none
victim (t ∷ ts) = elim (victim ts) [
  | some k ↦ some k
  | none ↦ if t.claimed then none else some t.key
]

-- the queue without a key
unfoldable pub drop_key : ℕ → List ℕ → List ℕ
drop_key k [] = []
drop_key k (j ∷ js) = let rest = drop_key k js in if k == j then rest else j ∷ rest

abbrev pub requeued : ℕ → Outcome → Outcome
requeued v (raise e, s) = (raise e, s)
requeued v (ok u, s) = (ok tt, record s { queue = v ∷ s.queue })

abbrev pub displaced : (ℕ → Settled) → Option ℕ → Async → Outcome
displaced outcome none s = (raise runtime_error, s)
displaced outcome (some v) s = requeued v (discard outcome v s)

-- a slot for a demand: the displaced key goes back to the front of the queue
abbrev pub make_room : (ℕ → Settled) → Async → Outcome
make_room outcome s =
    if leb s.slots (length s.pending) then displaced outcome (victim s.pending) s else (ok tt, s)

abbrev pub claim_ticket : ℕ → Async → Async
claim_ticket k s = record s { pending = mark true k s.pending }

abbrev pub demanded : ℕ → Outcome → Outcome
demanded k (raise e, s) = (raise e, s)
demanded k (ok u, s) =
    (ok tt, claim_ticket k (record s { demand_submitted = s.demand_submitted + 1 }))

abbrev pub roomy : ℕ → Outcome → Outcome
roomy k (raise e, s) = (raise e, s)
roomy k (ok u, s) = demanded k (submit k (record s { queue = drop_key k s.queue }))

abbrev pub claim_found : (ℕ → Settled) → ℕ → Option Ticket → Async → Outcome
claim_found outcome k none s = roomy k (make_room outcome s)
claim_found outcome k (some t) s =
    let counted : Async = record s { prefetched_consumed = s.prefetched_consumed + 1 } in
    if t.claimed then (raise runtime_error, counted) else (ok tt, claim_ticket k counted)

-- `read` up to the wait for the future; `stopped` is whether the consumer has cancelled
unfoldable pub claim : (ℕ → Bool) → (ℕ → Settled) → Bool → ℕ → Async → Outcome
unfolding submit discard find victim drop_key mark
claim known outcome stopped k s =
    if s.closed || not s.opened
    then (raise runtime_error, s)
    else if not (known k)
    then (raise key_error, s)
    else if stopped
    then (raise interrupted, s)
    else claim_found outcome k (find k s.pending) s

-- the `finally` of `read`; `viewed` is whether a view of its buffer is still exported
unfoldable pub finish : Bool → ℕ → Async → Outcome
unfolding mark pop fill_queue
finish viewed k s =
    if viewed
    then (raise buffer_error, record s { pending = mark false k s.pending })
    else fill (without k s)

unfoldable pub any_claimed : List Ticket → Bool
any_claimed [] = false
any_claimed (t ∷ ts) = t.claimed || any_claimed ts

abbrev pub first_error : Result (Unit {0}) → Result (Unit {0}) → Result (Unit {0})
first_error (raise e) r = raise e
first_error (ok u) r = r

-- the loop of `close` over the tickets, which goes on after an exception, and the first of them
unfoldable pub discard_all : (ℕ → Settled) → List ℕ → Async → Outcome
unfolding discard
discard_all outcome [] s = (ok tt, s)
discard_all outcome (k ∷ ks) s =
    let discarded = discard outcome k s in
    let rest = discard_all outcome ks discarded.1 in (first_error discarded.0 rest.0, rest.1)

-- the end of `close`: a ticket that is left still stages its buffer
abbrev pub shut : Outcome → Outcome
shut (r, s) =
    let s' : Async = record s { opened = false } in
    if ltb 0 (length s.pending) then (raise runtime_error, s') else (r, s')

unfoldable pub close : (ℕ → Settled) → Async → Outcome
unfolding any_claimed discard_all
close outcome s =
    if s.closed
    then (ok tt, s)
    else if any_claimed s.pending
    then (raise runtime_error, s)
    else shut (discard_all outcome (keys_of s.pending) (record s { closed = true; queue = [] }))

abbrev pub new_store : ℕ → Async
new_store slots = record {
  slots = slots;
  pending = [];
  queue = [];
  closed = false;
  opened = true;
  submitted = 0;
  prefetched_consumed = 0;
  demand_submitted = 0;
  peak_pending = 0;
}

-- the constructor, on an open store
unfoldable pub init : ℕ → Result Async
init slots = if leb 1 slots && leb slots 2 then ok (new_store slots) else raise value_error
