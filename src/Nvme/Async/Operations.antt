-- ===== src/Nvme/Async/Operations.antt =====
-- The operations of `AsyncExpertStore`, experiments/dsv41_nvme/async_store.py, as the steps of
-- Steps.
use vllm_exl.Prelude.{
  ℕ, ◌+◌, ◌<◌, ◌≡◌, refl, ap, ◌∙◌, sym, ◌==◌, Bool, true, false, ◌&&◌, ◌||◌, not, Option, none,
  some, List, [], ◌∷◌, ltb, leb, length, All, arith, Bool-cases, inl, inr, ok, raise, if-both,
}
use vllm_exl.Prelude.Keys.{member, distinct}
use vllm_exl.Nvme.Async.Defs.{
  Ticket, Async, Outcome, Settled, find, has, keys_of, with_ticket, submit, without, requeued,
  displaced, demanded, discard, is_claimed, discard_others, not_pending, all_known, max_plan,
  planned, plan, victim, drop_key, make_room, roomy, claim_found, claim, finish, any_claimed,
  discard_all, shut, close,
}
use vllm_exl.Nvme.Async.Tickets.{find-new, victim-Known}
use vllm_exl.Nvme.Async.Steps.{
  Valid, Step, Step-refl, Step-trans, queue-Step, with_ticket-Step, fill_queue-Step, without-Step,
  mark-Step, To, discard-Step, after-Step,
}

some-injective : (a b : Ticket) → some a ≡ some b → a ≡ b
some-injective a b h = ap (λ o. elim o [ none ↦ a | some t ↦ t ]) h

module _ (known touched : ℕ → Bool) where
  discard_others-Step :
      (outcome : ℕ → Settled) (keys ks : List ℕ) (s : Async)
      → To known touched s (discard_others outcome keys ks s)
  unfolding discard_others
  discard_others-Step outcome keys [] s = Step-refl known touched s
  discard_others-Step outcome keys (k ∷ ks) s =
      elim (Bool-cases (not (member k keys) && not (is_claimed (find k s.pending)))) [
        | inr f ↦ rw (discard_others, f) (discard_others-Step outcome keys ks s)
        | inl t ↦
            rw (discard_others, t)
              (after-Step known touched s (discard outcome k s) (discard_others outcome keys ks)
                (discard-Step known touched outcome k s)
                (λ u m. discard_others-Step outcome keys ks (discard outcome k s).1))
      ]

  not_pending-known :
      (ks : List ℕ) (ts : List Ticket)
      → All (λ k. known k ≡ true) ks
      → All (λ k. known k ≡ true) (not_pending ks ts)
  unfolding not_pending
  not_pending-known [] ts h = tt
  not_pending-known (k ∷ ks) ts h =
      if-both (All (λ j. known j ≡ true)) (has k ts) _ _ (not_pending-known ks ts h.1)
        (h.0, not_pending-known ks ts h.1)

  all_known-All : (ks : List ℕ) → all_known known ks ≡ true → All (λ k. known k ≡ true) ks
  unfolding all_known
  all_known-All [] h = tt
  all_known-All (k ∷ ks) h =
      let front : known k ≡ true = ground arith in
      let rest : all_known known ks ≡ true = ground arith in (front, all_known-All ks rest)

  planned-Step :
      (keys : List ℕ) (s : Async) (o : Outcome)
      → All (λ k. known k ≡ true) keys
      → To known touched s o
      → To known touched s (planned keys o)
  planned-Step keys s (raise e, s') h step = step
  planned-Step keys s (ok u, s') h step =
      let q = not_pending keys s'.pending in
      let all = not_pending-known keys s'.pending h in
      let queued : Async = record s' { queue = q } in
      Step-trans known touched s s' _ step (
        Step-trans known touched s' queued _ (queue-Step known touched q s' (λ v. all))
          (fill_queue-Step known touched q queued all))

  pub plan-Step :
      (outcome : ℕ → Settled) (asked : List ℕ) (s : Async)
      → To known touched s (plan known outcome asked s)
  unfolding plan
  plan-Step outcome asked s =
      let keys = distinct [] asked in
      elim (Bool-cases (ltb max_plan (length keys) || not (all_known known keys))) [
        | inl t ↦ rw t (Step-refl known touched s)
        | inr f ↦
            let all : all_known known keys ≡ true = ground arith in
            rw f (
              if-both (To known touched s) (s.closed || not s.opened) _ _
                (Step-refl known touched s)
                (planned-Step keys s _ (all_known-All keys all)
                  (discard_others-Step outcome keys (keys_of s.pending) s)))
      ]

  displaced-Step :
      (outcome : ℕ → Settled) (s : Async)
      → Valid known s
      → (v : Option ℕ) → victim s.pending ≡ v
      → To known touched s (displaced outcome v s)
  displaced-Step outcome s valid none m = Step-refl known touched s
  displaced-Step outcome s valid (some v) m =
      let front = victim-Known known s.pending v valid.known_tickets m in
      requeued-Step (discard outcome v s) (discard-Step known touched outcome v s) front
    where
      requeued-Step :
          (o : Outcome) → To known touched s o → known v ≡ true → To known touched s (requeued v o)
      requeued-Step (raise e, s') step front = step
      requeued-Step (ok u, s') step front =
          Step-trans known touched s s' _ step
            (queue-Step known touched (v ∷ s'.queue) s' (λ w. (front, w.known_queue)))

  make_room-Step :
      (outcome : ℕ → Settled) (s : Async) → Valid known s → To known touched s (make_room outcome s)
  make_room-Step outcome s v =
      if-both (To known touched s) (leb s.slots (length s.pending)) _ _
        (displaced-Step outcome s v (victim s.pending) refl) (Step-refl known touched s)

  drop_key-known :
      (k : ℕ) (q : List ℕ) → All (λ j. known j ≡ true) q → All (λ j. known j ≡ true) (drop_key k q)
  unfolding drop_key
  drop_key-known k [] h = tt
  drop_key-known k (j ∷ q) h =
      if-both (All (λ i. known i ≡ true)) (k == j) _ _ (drop_key-known k q h.1)
        (h.0, drop_key-known k q h.1)

  -- a count that changes
  count-Step :
      (n m : ℕ) (s : Async)
      → Step known touched s (record s { demand_submitted = n; prefetched_consumed = m })
  count-Step n m s = record {
    valid = λ v. record {
      bound = v.bound;
      few = v.few;
      peak = v.peak;
      unique = v.unique;
      known_tickets = v.known_tickets;
      known_queue = v.known_queue;
    };
    kept = λ k t o f c. f;
  }

  demanded-Step :
      (k : ℕ) (s : Async) → known k ≡ true → To known touched s (demanded k (submit k s))
  unfolding submit
  demanded-Step k s h = elim (Bool-cases (leb s.slots (length s.pending) || has k s.pending)) [
    | inl t ↦ rw t (Step-refl known touched s)
    | inr f ↦
        let new : has k s.pending ≡ false = ground arith in
        let room : length s.pending < s.slots = ground arith in
        let added = with_ticket-Step known touched k s h room new in
        let fresh : Async = with_ticket k s in
        let count = count-Step (fresh.demand_submitted + 1) fresh.prefetched_consumed fresh in
        rw f (
          Step-trans known touched s fresh _ added (
            Step-trans known touched fresh _ _ count (
              mark-Step known touched true k _ (λ t o g.
                let same : record { key = k; claimed = false } ≡ t =
                  some-injective _ _ (sym (find-new k s.pending false new) ∙ g) in
                sym (ap (λ x. x.claimed) same)))))
  ]

  roomy-Step :
      (k : ℕ) (s : Async) (o : Outcome)
      → known k ≡ true
      → To known touched s o
      → To known touched s (roomy k o)
  roomy-Step k s (raise e, s') h step = step
  roomy-Step k s (ok u, s') h step =
      let shorter : Async = record s' { queue = drop_key k s'.queue } in
      Step-trans known touched s s' _ step (
        Step-trans known touched s' shorter _
          (queue-Step known touched (drop_key k s'.queue) s'
            (λ v. drop_key-known k s'.queue v.known_queue))
          (demanded-Step k shorter h))

  claim_found-Step :
      (outcome : ℕ → Settled) (k : ℕ) (s : Async)
      → known k ≡ true
      → Valid known s
      → (o : Option Ticket) → find k s.pending ≡ o
      → To known touched s (claim_found outcome k o s)
  claim_found-Step outcome k s h v none m =
      roomy-Step k s (make_room outcome s) h (make_room-Step outcome s v)
  claim_found-Step outcome k s h v (some t) m =
      let counted : Async = record s { prefetched_consumed = s.prefetched_consumed + 1 } in
      let count = count-Step s.demand_submitted (s.prefetched_consumed + 1) s in
      elim (Bool-cases t.claimed) [
        | inl c ↦ rw c count
        | inr c ↦ rw c (
            Step-trans known touched s counted _ count (
              mark-Step known touched true k counted
                (λ u o f. let same : t ≡ u = ground arith in sym (ap (λ x. x.claimed) same) ∙ c)))
      ]

  pub claim-Step :
      (outcome : ℕ → Settled) (stopped : Bool) (k : ℕ) (s : Async)
      → Valid known s
      → To known touched s (claim known outcome stopped k s)
  unfolding claim
  claim-Step outcome stopped k s v = elim (Bool-cases (known k)) [
    | inr f ↦
        if-both (To known touched s) (s.closed || not s.opened) _ _ (Step-refl known touched s)
          (rw f (Step-refl known touched s))
    | inl t ↦
        if-both (To known touched s) (s.closed || not s.opened) _ _ (Step-refl known touched s) (
          rw t (
            if-both (To known touched s) stopped _ _ (Step-refl known touched s)
              (claim_found-Step outcome k s t v (find k s.pending) refl)))
  ]

  pub finish-Step :
      (viewed : Bool) (k : ℕ) (s : Async)
      → touched k ≡ true
      → Valid known s
      → To known touched s (finish viewed k s)
  unfolding finish
  finish-Step viewed k s own v =
      let step = without-Step known touched k s (λ t o f. absurd (ground arith)) in
      if-both (To known touched s) viewed _ _
        (mark-Step known touched false k s (λ t o f. absurd (ground arith)))
        (Step-trans known touched s (without k s) _ step
          (fill_queue-Step known touched s.queue (without k s) v.known_queue))

  discard_all-Step :
      (outcome : ℕ → Settled) (ks : List ℕ) (s : Async)
      → To known touched s (discard_all outcome ks s)
  unfolding discard_all
  discard_all-Step outcome [] s = Step-refl known touched s
  discard_all-Step outcome (k ∷ ks) s =
      Step-trans known touched s (discard outcome k s).1 _ (discard-Step known touched outcome k s)
        (discard_all-Step outcome ks (discard outcome k s).1)

  closed-Step :
      (c d : Bool) (s : Async) → Step known touched s (record s { closed = c; opened = d })
  closed-Step c d s = record {
    valid = λ v. record {
      bound = v.bound;
      few = v.few;
      peak = v.peak;
      unique = v.unique;
      known_tickets = v.known_tickets;
      known_queue = v.known_queue;
    };
    kept = λ k t o f c. f;
  }

  shut-Step : (s : Async) (o : Outcome) → To known touched s o → To known touched s (shut o)
  shut-Step s (r, s') step =
      if-both (To known touched s) (ltb 0 (length s'.pending)) _ _
        (Step-trans known touched s s' _ step (closed-Step s'.closed false s'))
        (Step-trans known touched s s' _ step (closed-Step s'.closed false s'))

  pub close-Step : (outcome : ℕ → Settled) (s : Async) → To known touched s (close outcome s)
  unfolding close
  close-Step outcome s =
      let ending : Async = record s { closed = true; queue = [] } in
      if-both (To known touched s) s.closed _ _ (Step-refl known touched s) (
        if-both (To known touched s) (any_claimed s.pending) _ _ (Step-refl known touched s) (
          shut-Step s (discard_all outcome (keys_of s.pending) ending) (
            Step-trans known touched s (record s { closed = true }) _ (closed-Step true s.opened s)
              (Step-trans known touched (record s { closed = true }) ending _
                (queue-Step known touched [] (record s { closed = true }) (λ v. tt))
                (discard_all-Step outcome (keys_of s.pending) ending)))))
