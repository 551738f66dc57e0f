-- ===== src/Parallel/Ends.antt =====
-- How many steps there are, and that some thread can make one.
use bpt.Prelude.{
  ℕ, zero, suc, ◌+◌, ◌-◌, ◌*◌, ◌≤◌, Bool, true, false, none, some, List, [], ◌∷◌, ◌++◌, ◌==◌, ◌≡◌,
  ◌≢◌, ◌⊎◌, inl, inr, refl, ap, ◌∙◌, arith, get_elem?, length, Bool-cases, Option-cases,
  >>=-eq-some,
}
use bpt.Parallel.{
  Worker, ready, locked, taken, running, caught, failing, stopped, Pool, set, becomes, lock, unlock,
  check, move, thread_step, steps, started, all_ready, all_stopped,
}
use bpt.Parallel.Workers.{total, total-set}
use bpt.Parallel.Locks.{IsSafe, critical}
use bpt.Parallel.Safe.{thread_step-IsSafe, started-IsSafe, parallel_run-IsSafe}

-- The steps that are left to a thread before its next item.
abbrev weight : Worker → ℕ
weight ready = 2
weight locked = 1
weight (taken i) = 0
weight (running i) = 3
weight (caught i) = 2
weight (failing i) = 1
weight stopped = 0

abbrev measure : ℕ → Pool → ℕ
measure stop p = total weight p.workers + 4 * (stop - p.iter)

length-set :
    (workers : List Worker) (k : ℕ) (w : Worker) → length (set workers k w) ≡ length workers
length-set [] k w = refl
length-set (v ∷ workers) zero w = refl
length-set (v ∷ workers) (suc k) w = omega (arith, length-set workers k w)

-- A thread_step uses up some of the measure, and keeps the number of threads.
abbrev Steps : ℕ → Pool → Pool → Type 0
Steps stop p q = (suc (measure stop q) ≤ measure stop p) × (length q.workers ≡ length p.workers)

lock-Steps :
    (stop k : ℕ) (p q : Pool) (v w : Worker)
    → get_elem? p.workers k ≡ some v
    → suc (weight w) ≤ weight v
    → lock k w p ≡ some q
    → Steps stop p q
lock-Steps stop k p q v w a less h = elim (Option-cases p.mut) [
  | inr (j, m) ↦ let h' = rw (m) at h in cc h'
  | inl m ↦
      let h' = rw (m) at h in
      let e : record (becomes k w p) { mut = some k } ≡ q = cc h' in
      rw (← e) (omega (arith, less, total-set weight p.workers k w v a), length-set p.workers k w)
]

check-Steps :
    (stop k : ℕ) (exceptions : List ℕ) (p : Pool)
    → get_elem? p.workers k ≡ some locked
    → Steps stop p (check stop k exceptions p)
check-Steps stop k (e ∷ exceptions) p a =
    (omega (arith, total-set weight p.workers k stopped locked a), length-set p.workers k stopped)
check-Steps stop k [] p a = elim (Bool-cases (p.iter == stop)) [
  | inl at_stop ↦
      rw (check, at_stop)
        (
          omega (arith, total-set weight p.workers k stopped locked a),
          length-set p.workers k stopped,
        )
  | inr before ↦
      rw (check, before)
        (
          omega (arith, total-set weight p.workers k (taken p.iter) locked a),
          length-set p.workers k (taken p.iter),
        )
]

module _ (throws : ℕ → Bool) (stop : ℕ) (p : Pool) (k : ℕ) (s : IsSafe stop p) where
  move-Steps :
      (v : Worker) (q : Pool)
      → get_elem? p.workers k ≡ some v
      → move throws stop k v p ≡ some q
      → Steps stop p q
  move-Steps ready q a h = lock-Steps stop k p q ready locked a (omega arith) h
  move-Steps locked q a h =
      let e : check stop k p.exceptions p ≡ q = cc h in
      rw (← e) (check-Steps stop k p.exceptions p a)
  move-Steps (taken i) q a h =
      let (m, at_iter, below) = s.fine k (taken i) a in
      let e : unlock (record (becomes k (running i) p) { iter = suc p.iter }) ≡ q = cc h in
      rw (← e) (
        omega (arith, below, total-set weight p.workers k (running i) (taken i) a),
        length-set p.workers k (running i),
      )
  move-Steps (running i) q a h = elim (Bool-cases (throws i)) [
    | inl t ↦
        let h' = rw (t) at h in
        let e : becomes k (caught i) p ≡ q = cc h' in
        rw (← e) (
          omega (arith, total-set weight p.workers k (caught i) (running i) a),
          length-set p.workers k (caught i),
        )
    | inr t ↦
        let h' = rw (t) at h in
        let e : record (becomes k ready p) { finished = i ∷ p.finished } ≡ q = cc h' in
        rw (← e) (
          omega (arith, total-set weight p.workers k ready (running i) a),
          length-set p.workers k ready,
        )
  ]
  move-Steps (caught i) q a h = lock-Steps stop k p q (caught i) (failing i) a (omega arith) h
  move-Steps (failing i) q a h =
      let e : unlock (record (becomes k stopped p) { exceptions = p.exceptions ++ i ∷ [] }) ≡ q =
        cc h in
      rw (← e) (
        omega (arith, total-set weight p.workers k stopped (failing i) a),
        length-set p.workers k stopped,
      )
  move-Steps stopped q a h = cc h

steps-Steps :
    (throws : ℕ → Bool) (stop : ℕ) (ks : List ℕ) (p q : Pool)
    → IsSafe stop p
    → steps throws stop ks p ≡ some q
    → (length ks + measure stop q ≤ measure stop p) × (length q.workers ≡ length p.workers)
unfolding thread_step
steps-Steps throws stop [] p q s h = let e : p ≡ q = cc h in rw (← e) (omega arith, refl)
steps-Steps throws stop (k ∷ ks) p q s h =
    let (r, first, rest) = >>=-eq-some (thread_step throws stop k p) _ h in
    let (v, a, m) = >>=-eq-some (get_elem? p.workers k) _ first in
    let (less, len) = move-Steps throws stop p k s v r a m in
    let (le, len') =
      steps-Steps throws stop ks r q (thread_step-IsSafe throws stop k p r s first) rest in
    (omega (arith, less, le), len' ∙ len)

started-measure : (stop n_jobs : ℕ) → measure stop (started n_jobs) ≡ 2 * n_jobs + 4 * stop
started-measure stop zero = omega arith
started-measure stop (suc n) = omega (arith, started-measure stop n)

length-all_ready : (n : ℕ) → length (all_ready n) ≡ n
length-all_ready zero = refl
length-all_ready (suc n) = ap suc (length-all_ready n)

pub parallel_run-length :
    (throws : ℕ → Bool) (stop n_jobs : ℕ) (ks : List ℕ) (q : Pool)
    → steps throws stop ks (started n_jobs) ≡ some q
    → length q.workers ≡ n_jobs
parallel_run-length throws stop n_jobs ks q h =
    (steps-Steps throws stop ks (started n_jobs) q (started-IsSafe stop n_jobs) h).1
    ∙ length-all_ready n_jobs

can_move :
    (throws : ℕ → Bool) (stop k : ℕ) (w : Worker) (p : Pool)
    → w ≢ stopped
    → (p.mut ≡ none) ⊎ (critical w ≡ true)
    → (q : Pool) × (move throws stop k w p ≡ some q)
can_move throws stop k ready p n (inl m) = (record (becomes k locked p) { mut = some k }, rw (m))
can_move throws stop k ready p n (inr c) = cc
can_move throws stop k locked p n m = (_, refl)
can_move throws stop k (taken i) p n m = (_, refl)
can_move throws stop k (running i) p n m = (_, refl)
can_move throws stop k (caught i) p n (inl m) =
    (record (becomes k (failing i) p) { mut = some k }, rw (m))
can_move throws stop k (caught i) p n (inr c) = cc
can_move throws stop k (failing i) p n m = (_, refl)
can_move throws stop k stopped p n m = absurd (n refl)

not_stopped :
    (workers : List Worker)
    → all_stopped workers ≡ false
    → (k : ℕ) × (w : Worker) × (get_elem? workers k ≡ some w) × (w ≢ stopped)
not_stopped [] h = cc
not_stopped (ready ∷ workers) h = (0, ready, refl, λ e. cc e)
not_stopped (locked ∷ workers) h = (0, locked, refl, λ e. cc e)
not_stopped (taken i ∷ workers) h = (0, taken i, refl, λ e. cc e)
not_stopped (running i ∷ workers) h = (0, running i, refl, λ e. cc e)
not_stopped (caught i ∷ workers) h = (0, caught i, refl, λ e. cc e)
not_stopped (failing i ∷ workers) h = (0, failing i, refl, λ e. cc e)
not_stopped (stopped ∷ workers) h = let (k, w, a, n) = not_stopped workers h in (suc k, w, a, n)

-- Under every schedule the threads of parallel_run have made at most two steps for each thread and
-- four for each item, and either all of them have stopped or one of them can make a thread_step;
-- fn is taken to return or throw.
pub parallel_run_ends :
    (throws : ℕ → Bool) (stop n_jobs : ℕ) (ks : List ℕ) (q : Pool)
    → steps throws stop ks (started n_jobs) ≡ some q
    → (length ks ≤ 2 * n_jobs + 4 * stop)
      × ((all_stopped q.workers ≡ true)
          ⊎ ((k : ℕ) × (r : Pool) × (thread_step throws stop k q ≡ some r)))
unfolding thread_step
parallel_run_ends throws stop n_jobs ks q h =
    let (le, len) = steps-Steps throws stop ks (started n_jobs) q (started-IsSafe stop n_jobs) h in
    let safe = parallel_run-IsSafe throws stop n_jobs ks q h in
    (
      omega (arith, le, started-measure stop n_jobs),
      elim (Bool-cases (all_stopped q.workers)) [
        | inl a ↦ inl a
        | inr some_left ↦ elim (Option-cases q.mut) [
          | inr (k, m) ↦
              let (w, a, c) = safe.held k m in
              let (r, e) = can_move throws stop k w q (λ same. cc (ap critical same)) (inr c) in
              inr (k, r, rw (thread_step, a) e)
          | inl m ↦
              let (k, w, a, n) = not_stopped q.workers some_left in
              let (r, e) = can_move throws stop k w q n (inl m) in inr (k, r, rw (thread_step, a) e)
        ]
      ],
    )
