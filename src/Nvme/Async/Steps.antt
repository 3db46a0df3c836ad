-- ===== src/Nvme/Async/Steps.antt =====
-- What every operation of `AsyncExpertStore`, experiments/dsv41_nvme/async_store.py, keeps.
use vllm_exl.Prelude.{
  ℕ, ◌≤◌, ◌<◌, ◌≡◌, refl, ap, ◌∙◌, sym, ◌==◌, Bool, true, false, ◌&&◌, ◌||◌, not, some, List, [],
  ◌∷◌, ltb, leb, length, length-append, All, All-append, arith, Bool-cases, Option-cases,
  Result-cases, inl, inr, ok, raise,
}
use vllm_exl.Nvme.Async.Defs.{
  Ticket, Async, Outcome, Settled, freed, cancelled, exported, failed, find, has, mark, with_ticket,
  submit, fill_queue, without, settle, discard_ticket, discard,
}
use vllm_exl.Nvme.Async.Tickets.{
  Unique, Known, length-pop, length-mark, pop-Unique, mark-Unique, append-Unique, pop-Known,
  mark-Known, find-append, find-pop, find-mark,
}

-- no more tickets than slots, now and ever before, at most two slots, no key twice, and only keys
-- in the records
pub record Valid (known : ℕ → Bool) (s : Async) : Type 0 where
  pub bound : length s.pending ≤ s.slots
  pub few : s.slots ≤ 2
  pub peak : s.peak_pending ≤ s.slots
  pub unique : Unique s.pending
  pub known_tickets : Known known s.pending
  pub known_queue : All (λ k. known k ≡ true) s.queue

-- what a step keeps, where `touched` is whether a key is the step's own
pub record Step (known : ℕ → Bool) (touched : ℕ → Bool) (s s' : Async) : Type 0 where
  pub valid : Valid known s → Valid known s'
  pub kept :
      (k : ℕ) (t : Ticket)
      → touched k ≡ false
      → find k s.pending ≡ some t
      → t.claimed ≡ true
      → find k s'.pending ≡ some t

module _ (known touched : ℕ → Bool) where
  pub Step-refl : (s : Async) → Step known touched s s
  Step-refl s = record { valid = λ v. v; kept = λ k t o h c. h }

  pub Step-trans :
      (a b c : Async) → Step known touched a b → Step known touched b c → Step known touched a c
  Step-trans a b c h k = record {
    valid = λ v. k.valid (h.valid v);
    kept = λ j t o f cl. k.kept j t o (h.kept j t o f cl) cl;
  }

  -- another queue of known keys
  pub queue-Step :
      (q : List ℕ) (s : Async)
      → (Valid known s → All (λ k. known k ≡ true) q)
      → Step known touched s (record s { queue = q })
  queue-Step q s h = record {
    valid = λ v. record {
      bound = v.bound;
      few = v.few;
      peak = v.peak;
      unique = v.unique;
      known_tickets = v.known_tickets;
      known_queue = h v;
    };
    kept = λ k t o f c. f;
  }

  pub with_ticket-Step :
      (k : ℕ) (s : Async)
      → known k ≡ true
      → length s.pending < s.slots
      → has k s.pending ≡ false
      → Step known touched s (with_ticket k s)
  with_ticket-Step k s h room new =
      let longer = length-append s.pending (record { key = k; claimed = false } ∷ []) in
      record {
        valid = λ v. record {
          bound = omega (arith, longer, room);
          few = v.few;
          peak = omega (arith, longer, room, v.peak);
          unique = append-Unique (record { key = k; claimed = false }) s.pending v.unique new;
          known_tickets = All-append _ s.pending (_ ∷ []) v.known_tickets (h, tt);
          known_queue = v.known_queue;
        };
        kept = λ j t o g c. find-append j s.pending _ t g;
      }

  pub submit-Step : (k : ℕ) (s : Async) → known k ≡ true → Step known touched s (submit k s).1
  unfolding submit
  submit-Step k s h = elim (Bool-cases (leb s.slots (length s.pending) || has k s.pending)) [
    | inl t ↦ rw t (Step-refl s)
    | inr f ↦ rw f (with_ticket-Step k s h (ground arith) (ground arith))
  ]

  -- from any queue of known keys
  pub fill_queue-Step :
      (q : List ℕ) (s : Async)
      → All (λ k. known k ≡ true) q
      → Step known touched s (fill_queue q s).1
  unfolding fill_queue
  fill_queue-Step [] s h = queue-Step [] s (λ v. tt)
  fill_queue-Step (k ∷ ks) s h =
      elim (Bool-cases (ltb (length s.pending) s.slots && not s.closed)) [
        | inr f ↦ rw (fill_queue, f) (queue-Step (k ∷ ks) s (λ v. h))
        | inl t ↦ elim (Bool-cases (has k s.pending)) [
          | inl p ↦ rw (fill_queue, t, p) (fill_queue-Step ks s h.1)
          | inr p ↦
              let shorter = record s { queue = ks } in
              let first =
                Step-trans s shorter (submit k shorter).1 (queue-Step ks s (λ v. h.1))
                  (submit-Step k shorter h.0) in
              elim (Result-cases (submit k shorter).0) [
                | inr (e, m) ↦ rw (fill_queue, t, p, m) first
                | inl (u, m) ↦
                    rw (fill_queue, t, p, m)
                      (Step-trans s (submit k shorter).1 _ first
                        (fill_queue-Step ks (submit k shorter).1 h.1))
              ]
        ]
      ]

  -- a ticket goes that is not claimed, or whose key is the step's own
  pub without-Step :
      (k : ℕ) (s : Async)
      → ((t : Ticket) → touched k ≡ false → find k s.pending ≡ some t → t.claimed ≡ false)
      → Step known touched s (without k s)
  without-Step k s free = record {
    valid = λ v. record {
      bound = (let shorter = length-pop k s.pending in omega (arith, shorter, v.bound));
      few = v.few;
      peak = v.peak;
      unique = pop-Unique k s.pending v.unique;
      known_tickets = pop-Known known k s.pending v.known_tickets;
      known_queue = v.known_queue;
    };
    kept = λ j t o f c. elim (Bool-cases (j == k)) [
      | inr d ↦ find-pop j k s.pending d ∙ f
      | inl e ↦
          let same : j ≡ k = ground arith in
          let claimed : t.claimed ≡ false = free t (rw (sym same) o) (rw (sym same) f) in
          absurd (ground arith)
    ];
  }

  pub mark-Step :
      (b : Bool) (k : ℕ) (s : Async)
      → ((t : Ticket) → touched k ≡ false → find k s.pending ≡ some t → t.claimed ≡ false)
      → Step known touched s (record s { pending = mark b k s.pending })
  mark-Step b k s free = record {
    valid = λ v. record {
      bound = (let same = length-mark b k s.pending in omega (arith, same, v.bound));
      few = v.few;
      peak = v.peak;
      unique = mark-Unique b k s.pending v.unique;
      known_tickets = mark-Known known b k s.pending v.known_tickets;
      known_queue = v.known_queue;
    };
    kept = λ j t o f c. elim (Bool-cases (j == k)) [
      | inr d ↦ find-mark b j k s.pending d ∙ f
      | inl e ↦
          let same : j ≡ k = ground arith in
          let claimed : t.claimed ≡ false = free t (rw (sym same) o) (rw (sym same) f) in
          absurd (ground arith)
    ];
  }

  -- a step to the state of an outcome
  abbrev pub To : Async → Outcome → Type 0
  To s o = Step known touched s o.1

  settle-Step :
      (k : ℕ) (x : Settled) (s : Async) → Step known touched s (without k s) → To s (settle k x s)
  settle-Step k freed s h = h
  settle-Step k cancelled s h = h
  settle-Step k (failed e) s h = h
  settle-Step k exported s h = Step-refl s

  pub discard-Step : (outcome : ℕ → Settled) (k : ℕ) (s : Async) → To s (discard outcome k s)
  unfolding discard
  discard-Step outcome k s = elim (Option-cases (find k s.pending)) [
    | inl n ↦ rw (n, discard_ticket) (Step-refl s)
    | inr (t, n) ↦ elim (Bool-cases t.claimed) [
      | inl c ↦ rw (n, discard_ticket, c) (Step-refl s)
      | inr c ↦
          rw (n, discard_ticket, c)
            (settle-Step k (outcome k) s (
              without-Step k s
                (λ u o f. let same : t ≡ u = ground arith in sym (ap (λ x. x.claimed) same) ∙ c)))
    ]
  ]

  -- after a discard that returned
  pub after-Step :
      (s : Async) (o : Outcome) (f : Async → Outcome)
      → To s o
      → ((u : Unit {0}) → o.0 ≡ ok u → To o.1 (f o.1))
      → To s (elim o.0 [ raise e ↦ (raise e, o.1) | ok u ↦ f o.1 ])
  after-Step s (raise e, s') f h k = h
  after-Step s (ok u, s') f h k = Step-trans s s' (f s').1 h (k u refl)
