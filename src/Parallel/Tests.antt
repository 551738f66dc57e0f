-- ===== src/Parallel/Tests.antt =====
use bpt.Prelude.{
  ℕ, ◌+◌, ◌*◌, ◌≤◌, true, false, none, some, List, [], ◌∷◌, ◌≡◌, ◌⊎◌, refl, arith, ltb, length,
  ◌==◌,
}
use bpt.Parallel.{stopped, Pool, thread_step, steps, started, all_stopped}
use bpt.Parallel.Locks.{IsSafe}
use bpt.Parallel.Safe.{parallel_run-IsSafe}
use bpt.Parallel.Items.{IsBalanced, one_if, count, parallel_run-IsBalanced, parallel_run-all}
use bpt.Parallel.Ends.{parallel_run_ends}

-- Two threads and two items, where the threads take turns.
abbrev schedule : List ℕ
schedule = 0 ∷ 0 ∷ 0 ∷ 1 ∷ 1 ∷ 1 ∷ 1 ∷ 0 ∷ 1 ∷ 1 ∷ 0 ∷ 0 ∷ []

abbrev joined : Pool
joined = record {
  workers = stopped ∷ stopped ∷ [];
  mut = none;
  iter = 2;
  exceptions = [];
  finished = 0 ∷ 1 ∷ [];
}

runs_two_items : steps (λ i. false) 2 schedule (started 2) ≡ some joined
unfolding thread_step
runs_two_items = refl

-- The second item throws.
abbrev gave_up : Pool
gave_up = record {
  workers = stopped ∷ [];
  mut = none;
  iter = 2;
  exceptions = 1 ∷ [];
  finished = 0 ∷ [];
}

stops_at_exception :
    steps (λ i. i == 1) 5 (0 ∷ 0 ∷ 0 ∷ 0 ∷ 0 ∷ 0 ∷ 0 ∷ 0 ∷ 0 ∷ 0 ∷ []) (started 1) ≡ some gave_up
unfolding thread_step
stops_at_exception = refl

parallel_run-IsSafe_example : IsSafe 5 gave_up
parallel_run-IsSafe_example =
    parallel_run-IsSafe (λ i. i == 1) 5 1 (0 ∷ 0 ∷ 0 ∷ 0 ∷ 0 ∷ 0 ∷ 0 ∷ 0 ∷ 0 ∷ 0 ∷ []) gave_up
      stops_at_exception

parallel_run-IsBalanced_example : IsBalanced gave_up
parallel_run-IsBalanced_example =
    parallel_run-IsBalanced (λ i. i == 1) 5 1 (0 ∷ 0 ∷ 0 ∷ 0 ∷ 0 ∷ 0 ∷ 0 ∷ 0 ∷ 0 ∷ 0 ∷ []) gave_up
      stops_at_exception

parallel_run-all_example : count 1 joined.finished ≡ one_if (ltb 1 2)
parallel_run-all_example =
    parallel_run-all (λ i. false) 2 2 schedule joined (omega arith) runs_two_items refl refl 1

parallel_run_ends_example :
    (length schedule ≤ 2 * 2 + 4 * 2)
    × ((all_stopped joined.workers ≡ true)
        ⊎ ((k : ℕ) × (r : Pool) × (thread_step (λ i. false) 2 k joined ≡ some r)))
parallel_run_ends_example = parallel_run_ends (λ i. false) 2 2 schedule joined runs_two_items
