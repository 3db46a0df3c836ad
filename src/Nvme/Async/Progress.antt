-- ===== src/Nvme/Async/Progress.antt =====
-- How a plan of experiments/dsv41_nvme/async_store.py is worked off, and what `close` leaves.
use vllm_exl.Prelude.{
  ℕ, ◌≤◌, ◌≡◌, refl, ap, ◌∙◌, ◌==◌, Bool, true, false, ◌&&◌, ◌||◌, not, List, [], ◌∷◌, ltb, leb,
  length, arith, Bool-cases, Option-cases, Result-cases, inl, inr, ◌⊎◌, ok, raise, if-both,
  if-false,
}
use vllm_exl.Prelude.Keys.{member, distinct, distinct-member}
use vllm_exl.Nvme.Async.Defs.{
  Ticket, Async, Outcome, Settled, freed, cancelled, exported, failed, find, has, keys_of,
  with_ticket, submit, fill_queue, settle, is_claimed, discard, discard_others, not_pending,
  all_known, max_plan, planned, plan,
}
use vllm_exl.Nvme.Async.Tickets.{has-append}

-- what filling does from a queue: it returns, every key stays pending or in the queue, and a key
-- waits only while every slot is taken or the store is closed
pub record Filled (q : List ℕ) (s : Async) (o : Outcome) : Type 0 where
  pub returns : o.0 ≡ ok tt
  pub covered :
      (k : ℕ)
      → (has k s.pending || member k q) ≡ true
      → (has k o.1.pending || member k o.1.queue) ≡ true
  pub busy : s.closed ≡ false → (o.1.queue ≡ []) ⊎ (o.1.slots ≤ length o.1.pending)

or-front : (a b c : Bool) → (a || (b || c)) ≡ true → (b ≡ true → a ≡ true) → (a || c) ≡ true
or-front true b c h k = refl
or-front false true c h k = absurd (ground arith)
or-front false false c h k = h

or-take : (a b c : Bool) → b ≡ true → (a || (b || c)) ≡ true
or-take true b c h = refl
or-take false true c h = refl
or-take false false c h = absurd (ground arith)

or-moved : (a b c : Bool) → (a || (b || c)) ≡ true → ((a || (b || false)) || c) ≡ true
or-moved true b c h = refl
or-moved false true c h = refl
or-moved false false c h = h

fill_queue-Filled : (q : List ℕ) (s : Async) → Filled q s (fill_queue q s)
unfolding fill_queue has member
fill_queue-Filled [] s = record { returns = refl; covered = λ k h. h; busy = λ c. inl refl }
fill_queue-Filled (k ∷ ks) s = elim (Bool-cases (ltb (length s.pending) s.slots && not s.closed)) [
  | inr f ↦
      rw (fill_queue, f)
        (record { returns = refl; covered = λ j h. h; busy = λ c. inr (ground arith) })
  | inl t ↦ elim (Bool-cases (has k s.pending)) [
    | inl p ↦
        let rest = fill_queue-Filled ks s in
        rw (fill_queue, t, p)
          (record {
            returns = rest.returns;
            covered = λ j h. rest.covered j (
                or-front (has j s.pending) (j == k) (member j ks) h
                  (λ e. let same : j ≡ k = ground arith in rw same p));
            busy = rest.busy;
          })
    | inr p ↦
        let shorter : Async = record s { queue = ks } in
        let fresh : Async = with_ticket k shorter in
        let full : leb s.slots (length s.pending) ≡ false = ground arith in
        let rest = fill_queue-Filled ks fresh in
        let submitted : submit k shorter ≡ (ok tt, fresh) = rw (submit, full, p) refl in
        let step : fill_queue (k ∷ ks) s ≡ fill_queue ks fresh =
          rw (fill_queue, t, p, submitted) (ap (λ (o : Outcome). fill_queue ks o.1) submitted) in
        rw step (record {
          returns = rest.returns;
          covered = λ j h. rest.covered j (
              rw (has-append j s.pending (record { key = k; claimed = false } ∷ []))
                (or-moved (has j s.pending) (j == k) (member j ks) h));
          busy = rest.busy;
        })
  ]
]

not_pending-covered :
    (k : ℕ) (ks : List ℕ) (ts : List Ticket)
    → member k ks ≡ true
    → (has k ts || member k (not_pending ks ts)) ≡ true
unfolding member not_pending
not_pending-covered k [] ts h = absurd (ground arith)
not_pending-covered k (j ∷ ks) ts h = elim (Bool-cases (k == j)) [
  | inl e ↦
      let same : k ≡ j = ground arith in
      elim (Bool-cases (has j ts)) [
        | inl p ↦ let here : has k ts ≡ true = rw same p in rw here refl
        | inr p ↦ rw p (or-take (has k ts) (k == j) _ e)
      ]
  | inr e ↦
      let later : member k ks ≡ true = ground arith in
      let rest = not_pending-covered k ks ts later in
      elim (Bool-cases (has j ts)) [ inl p ↦ rw p rest | inr p ↦ rw (p, e) rest ]
]

settle-closed : (k : ℕ) (x : Settled) (s : Async) → (settle k x s).1.closed ≡ s.closed
settle-closed k freed s = refl
settle-closed k cancelled s = refl
settle-closed k (failed e) s = refl
settle-closed k exported s = refl

discard-closed :
    (outcome : ℕ → Settled) (k : ℕ) (s : Async) → (discard outcome k s).1.closed ≡ s.closed
unfolding discard
discard-closed outcome k s = elim (Option-cases (find k s.pending)) [
  | inl n ↦ rw n refl
  | inr (t, n) ↦ rw n (
      if-both (λ (o : Outcome). o.1.closed ≡ s.closed) t.claimed _ _ refl
        (settle-closed k (outcome k) s))
]

discard_others-closed :
    (outcome : ℕ → Settled) (keys ks : List ℕ) (s : Async)
    → (discard_others outcome keys ks s).1.closed ≡ s.closed
unfolding discard_others
discard_others-closed outcome keys [] s = refl
discard_others-closed outcome keys (k ∷ ks) s =
    elim (Bool-cases (not (member k keys) && not (is_claimed (find k s.pending)))) [
      | inr f ↦ rw (discard_others, f) (discard_others-closed outcome keys ks s)
      | inl t ↦ elim (Result-cases (discard outcome k s).0) [
        | inr (e, m) ↦ rw (discard_others, t, m) (discard-closed outcome k s)
        | inl (u, m) ↦
            rw (discard_others, t, m)
              (discard_others-closed outcome keys ks (discard outcome k s).1
                ∙ discard-closed outcome k s)
      ]
    ]

-- what a plan that returns leaves
abbrev pub Planned : List ℕ → Outcome → Type 0
Planned asked o =
    (u : Unit {0})
    → o.0 ≡ ok u
    → ((k : ℕ) → member k asked ≡ true → (has k o.1.pending || member k o.1.queue) ≡ true)
      × ((o.1.queue ≡ []) ⊎ (o.1.slots ≤ length o.1.pending))

planned-Planned :
    (asked : List ℕ) (o : Outcome)
    → o.1.closed ≡ false
    → Planned asked (planned (distinct [] asked) o)
unfolding member
planned-Planned asked (raise e, s) c = λ u h. absurd (ground arith)
planned-Planned asked (ok v, s) c = λ u h.
    let keys = distinct [] asked in
    let queued : Async = record s { queue = not_pending keys s.pending } in
    let filled = fill_queue-Filled (not_pending keys s.pending) queued in
    (
      λ k m. filled.covered k (not_pending-covered k keys s.pending (distinct-member k [] asked m)),
      filled.busy c,
    )

-- A plan that returns has every key that was asked for pending or in the queue, and leaves a key
-- in the queue only while every slot is taken.
pub plan_lem :
    (known : ℕ → Bool) (outcome : ℕ → Settled) (asked : List ℕ) (s : Async) (u : Unit {0})
    → (plan known outcome asked s).0 ≡ ok u
    → let s' = (plan known outcome asked s).1 in
      ((k : ℕ) → member k asked ≡ true → (has k s'.pending || member k s'.queue) ≡ true)
      × ((s'.queue ≡ []) ⊎ (s'.slots ≤ length s'.pending))
unfolding plan member
plan_lem known outcome asked s =
    let keys = distinct [] asked in
    if-both (Planned asked) (ltb max_plan (length keys) || not (all_known known keys)) _ _
      (λ u h. absurd (ground arith))
      (elim (Bool-cases (s.closed || not s.opened)) [
        | inl t ↦ rw t (λ u h. absurd (ground arith))
        | inr f ↦ if-false (Planned asked) (s.closed || not s.opened) _ _ f (
            planned-Planned asked (discard_others outcome keys (keys_of s.pending) s)
              (discard_others-closed outcome keys (keys_of s.pending) s ∙ ground arith))
      ])

-- a store that is shut
abbrev pub Empty : Outcome → Type 0
Empty o = (o.1.pending ≡ []) × (o.1.closed ≡ true) × (o.1.opened ≡ false)
