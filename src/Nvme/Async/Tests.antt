-- ===== src/Nvme/Async/Tests.antt =====
-- A store of two slots that has leased key 5 and prefetches key 6, and the theorems at it.
use vllm_exl.Prelude.{
  ℕ, ◌≤◌, ◌≡◌, refl, Bool, true, false, ◌||◌, some, List, [], ◌∷◌, length, ok, ◌⊎◌, ltb,
}
use vllm_exl.Prelude.Keys.{member, distinct}
use vllm_exl.Nvme.Async.Defs.{
  Async, Settled, freed, find, has, pop, mark, submit, fill_queue, discard, discard_others,
  not_pending, all_known, plan, victim, drop_key, claim, finish, any_claimed, discard_all, close,
  new_store, init,
}
use vllm_exl.Nvme.Async.Steps.{Valid}
use vllm_exl.Nvme.Async.History.{
  planning, claiming, run, Leads, started, stepped, Leads-Valid, run-kept,
}
use vllm_exl.Nvme.Async.Progress.{plan_lem}

program : Unit {0}
unfolding member distinct find has pop mark submit fill_queue discard discard_others not_pending
    all_known plan victim drop_key claim finish any_claimed discard_all close init
program = tt

abbrev known : ℕ → Bool
known k = ltb k 10

abbrev released : ℕ → Settled
released k = freed

-- a lease of key 5 after a plan of 5, 6 and 7
abbrev leased : Async
leased = record (new_store 2) {
  pending = record { key = 5; claimed = true } ∷ record { key = 6; claimed = false } ∷ [];
  queue = 7 ∷ [];
  submitted = 2;
  prefetched_consumed = 1;
  peak_pending = 2;
}

opened : init 2 ≡ ok (new_store 2)
unfolding program
opened = refl

abbrev asked : List ℕ
asked = 5 ∷ 6 ∷ 5 ∷ 7 ∷ []

abbrev filled : Async
filled = record (new_store 2) {
  pending = record { key = 5; claimed = false } ∷ record { key = 6; claimed = false } ∷ [];
  queue = 7 ∷ [];
  submitted = 2;
  peak_pending = 2;
}

plans : plan known released asked (new_store 2) ≡ (ok tt, filled)
unfolding program
plans = refl

-- key 8 takes the slot of key 6, which goes back to the queue
demands : claim known released false 8 leased ≡ (
  ok tt,
  record leased {
    pending = record { key = 5; claimed = true } ∷ record { key = 8; claimed = true } ∷ [];
    queue = 6 ∷ 7 ∷ [];
    submitted = 3;
    demand_submitted = 1;
  },
)
unfolding program
demands = refl

leads : run known released (claiming false 5) filled ≡ (ok tt, leased)
unfolding program
leads = refl

planned : Leads known (run known released (planning asked) (new_store 2)).1
planned = stepped (new_store 2) released (planning asked) (started 2 opened)

Leads-Valid_example : Valid known (run known released (planning asked) (new_store 2)).1
Leads-Valid_example =
    Leads-Valid known (run known released (planning asked) (new_store 2)).1 planned

plan_lem_example :
    ((k : ℕ) → member k asked ≡ true → (has k filled.pending || member k filled.queue) ≡ true)
    × ((filled.queue ≡ []) ⊎ (filled.slots ≤ length filled.pending))
unfolding program
plan_lem_example = plan_lem known released asked (new_store 2) tt refl

leased_reached :
    Leads known
      (run known released
        (claiming false 5)
        (run known released (planning asked) (new_store 2)).1).1
leased_reached =
    stepped (run known released (planning asked) (new_store 2)).1 released (claiming false 5)
      planned

run-kept_example :
    find 5 (run known released (planning (8 ∷ [])) leased).1.pending
    ≡ some (record { key = 5; claimed = true })
unfolding program
run-kept_example =
    run-kept known leased leased_reached released (planning (8 ∷ [])) 5
      (record { key = 5; claimed = true }) refl refl refl
