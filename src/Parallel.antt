-- ===== src/Parallel.antt =====
-- src/bpt/util/parallel.hpp: the threads of `parallel_run`, one thread_step of one thread at a time.
--
-- An item is its position in the range. A thread_step holds what a thread does between two calls of the
-- mutex or of `fn`; whether `fn` throws for an item is an argument, and `fn` returns.
pub mod Workers
pub mod Items
pub mod Locks
pub mod Safe
pub mod Ends
mod Tests
use bpt.Prelude.{
  ℕ, zero, suc, ◌+◌, ◌-◌, ◌*◌, Bool, true, false, Option, none, some, List, [], ◌∷◌, ◌++◌, ◌==◌,
  if◌then◌else◌, length, get_elem?, ◌>>=◌,
}

-- Where a thread stands in `run_one`.
pub data Worker : Type 0 where
  -- at the head of the loop, before the lock
  ready : Worker
  -- with the lock, before its tests
  locked : Worker
  -- with the lock and a reference to an item
  taken : ℕ → Worker
  -- in `fn`, without the lock
  running : ℕ → Worker
  -- in the handler, before the lock
  caught : ℕ → Worker
  -- in the handler, with the lock
  failing : ℕ → Worker
  stopped : Worker

-- The locals of `parallel_run`, with the items for which `fn` has returned. An exception is the item
-- that threw it.
pub record Pool : Type 0 where
  pub workers : List Worker
  pub mut : Option ℕ
  pub iter : ℕ
  pub exceptions : List ℕ
  pub finished : List ℕ

abbrev pub set : List Worker → ℕ → Worker → List Worker
set [] k w = []
set (v ∷ workers) zero w = w ∷ workers
set (v ∷ workers) (suc k) w = v ∷ set workers k w

abbrev pub becomes : ℕ → Worker → Pool → Pool
becomes k w p = record p { workers = set p.workers k w }

-- Taking the mutex: a thread that does not get it makes no thread_step.
abbrev pub lock : ℕ → Worker → Pool → Option Pool
lock k w p = elim p.mut [ none ↦ some (record (becomes k w p) { mut = some k }) | some j ↦ none ]

abbrev pub unlock : Pool → Pool
unlock p = record p { mut = none }

-- The two tests under the lock.
abbrev pub check : ℕ → ℕ → List ℕ → Pool → Pool
check stop k (e ∷ exceptions) p = unlock (becomes k stopped p)
check stop k [] p =
    if p.iter == stop then unlock (becomes k stopped p) else becomes k (taken p.iter) p

abbrev pub move : (ℕ → Bool) → ℕ → ℕ → Worker → Pool → Option Pool
move throws stop k ready p = lock k locked p
move throws stop k locked p = some (check stop k p.exceptions p)
move throws stop k (taken i) p =
    some (unlock (record (becomes k (running i) p) { iter = suc p.iter }))
move throws stop k (running i) p = some (
    if throws i
    then becomes k (caught i) p
    else record (becomes k ready p) { finished = i ∷ p.finished })
move throws stop k (caught i) p = lock k (failing i) p
move throws stop k (failing i) p =
    some (unlock (record (becomes k stopped p) { exceptions = p.exceptions ++ i ∷ [] }))
move throws stop k stopped p = none

-- A thread_step of the thread `k`, or `none` when it cannot make one.
unfoldable pub thread_step : (ℕ → Bool) → ℕ → ℕ → Pool → Option Pool
thread_step throws stop k p = get_elem? p.workers k >>= λ w. move throws stop k w p

-- The steps that the scheduler lets threads make, by thread.
abbrev pub steps : (ℕ → Bool) → ℕ → List ℕ → Pool → Option Pool
steps throws stop [] p = some p
steps throws stop (k ∷ ks) p = thread_step throws stop k p >>= λ q. steps throws stop ks q

abbrev pub all_ready : ℕ → List Worker
all_ready zero = []
all_ready (suc n) = ready ∷ all_ready n

-- Once the threads are made and the first lock is given up.
abbrev pub started : ℕ → Pool
started n_jobs = record {
  workers = all_ready n_jobs;
  mut = none;
  iter = 0;
  exceptions = [];
  finished = [];
}

abbrev pub all_stopped : List Worker → Bool
all_stopped [] = true
all_stopped (stopped ∷ workers) = all_stopped workers
all_stopped (w ∷ workers) = false

abbrev pub hardware_jobs : ℕ → ℕ → ℕ
hardware_jobs hardware_concurrency zero = hardware_concurrency + 2
hardware_jobs hardware_concurrency (suc n) = suc n

-- The result, once every thread is joined.
abbrev pub result : Pool → Bool
result p = elim p.exceptions [ [] ↦ true | e ∷ rest ↦ false ]
