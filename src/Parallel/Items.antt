-- ===== src/Parallel/Items.antt =====
-- Where each item of the range is.
use bpt.Prelude.{
  ℕ, zero, suc, ◌+◌, ◌<◌, Bool, true, false, some, List, [], ◌∷◌, ◌++◌, ◌==◌, ◌≡◌, inl, inr, refl,
  arith, ltb, get_elem?, length, Bool-cases, Option-cases, >>=-eq-some,
}
use bpt.Parallel.{
  Worker, ready, locked, taken, running, caught, failing, stopped, Pool, becomes, lock, unlock,
  check, move, thread_step, steps, started, all_ready, all_stopped, result,
}
use bpt.Parallel.Workers.{total, total-set}
use bpt.Parallel.Locks.{IsSafe}
use bpt.Parallel.Safe.{thread_step-IsSafe, started-IsSafe, parallel_run-IsSafe}
use bpt.Parallel.Ends.{parallel_run-length}

abbrev pub one_if : Bool → ℕ
one_if true = 1
one_if false = 0

abbrev pub count : ℕ → List ℕ → ℕ
count i [] = 0
count i (j ∷ js) = one_if (i == j) + count i js

-- Whether a thread has the item in hand.
abbrev pub in_hand : ℕ → Worker → ℕ
in_hand i ready = 0
in_hand i locked = 0
in_hand i (taken j) = 0
in_hand i (running j) = one_if (i == j)
in_hand i (caught j) = one_if (i == j)
in_hand i (failing j) = one_if (i == j)
in_hand i stopped = 0

-- How often an item was given to `fn`, by what became of the call.
abbrev pub calls : ℕ → Pool → ℕ
calls i p = total (in_hand i) p.workers + (count i p.finished + count i p.exceptions)

-- The items before the iterator were given to `fn` once, and the others never.
abbrev pub IsBalanced : Pool → Type 0
IsBalanced p = (i : ℕ) → calls i p ≡ one_if (ltb i p.iter)

count-append : (i j : ℕ) (js : List ℕ) → count i (js ++ j ∷ []) ≡ count i js + one_if (i == j)
count-append i j [] = ground arith
count-append i j (k ∷ js) = omega (arith, count-append i j js)

one_if-suc : (i n : ℕ) → one_if (ltb i (suc n)) ≡ one_if (ltb i n) + one_if (i == n)
one_if-suc i n = ground arith

lock-IsBalanced :
    (k : ℕ) (p q : Pool) (v w : Worker)
    → get_elem? p.workers k ≡ some v
    → ((i : ℕ) → in_hand i v ≡ in_hand i w)
    → IsBalanced p
    → lock k w p ≡ some q
    → IsBalanced q
lock-IsBalanced k p q v w a same b h = elim (Option-cases p.mut) [
  | inr (j, m) ↦ let h' = rw (m) at h in cc h'
  | inl m ↦
      let h' = rw (m) at h in
      let e : record (becomes k w p) { mut = some k } ≡ q = cc h' in
      rw (← e) (λ i. omega (arith, b i, same i, total-set (in_hand i) p.workers k w v a))
]

check-IsBalanced :
    (stop k : ℕ) (exceptions : List ℕ) (p : Pool)
    → get_elem? p.workers k ≡ some locked
    → IsBalanced p
    → IsBalanced (check stop k exceptions p)
check-IsBalanced stop k (e ∷ exceptions) p a b i =
    omega (arith, b i, total-set (in_hand i) p.workers k stopped locked a)
check-IsBalanced stop k [] p a b i = elim (Bool-cases (p.iter == stop)) [
  | inl at_stop ↦
      rw (check, at_stop) (omega (arith, b i, total-set (in_hand i) p.workers k stopped locked a))
  | inr before ↦
      rw (check, before)
        (omega (arith, b i, total-set (in_hand i) p.workers k (taken p.iter) locked a))
]

module _ (throws : ℕ → Bool) (stop : ℕ) (p : Pool) (k : ℕ) (s : IsSafe stop p)
    (b : IsBalanced p) where
  move-IsBalanced :
      (v : Worker) (q : Pool)
      → get_elem? p.workers k ≡ some v
      → move throws stop k v p ≡ some q
      → IsBalanced q
  move-IsBalanced ready q a h = lock-IsBalanced k p q ready locked a (λ i. refl) b h
  move-IsBalanced locked q a h =
      let e : check stop k p.exceptions p ≡ q = cc h in
      rw (← e) (check-IsBalanced stop k p.exceptions p a b)
  move-IsBalanced (taken i) q a h =
      let (m, at_iter, below) = s.fine k (taken i) a in
      let e : unlock (record (becomes k (running i) p) { iter = suc p.iter }) ≡ q = cc h in
      rw (← e) (λ j.
        let at_j : one_if (j == i) ≡ one_if (j == p.iter) = rw (at_iter) in
        omega (
          arith,
          b j,
          at_j,
          one_if-suc j p.iter,
          total-set (in_hand j) p.workers k (running i) (taken i) a,
        ))
  move-IsBalanced (running i) q a h = elim (Bool-cases (throws i)) [
    | inl t ↦
        let h' = rw (t) at h in
        let e : becomes k (caught i) p ≡ q = cc h' in
        rw (← e)
          (λ j. omega (arith, b j, total-set (in_hand j) p.workers k (caught i) (running i) a))
    | inr t ↦
        let h' = rw (t) at h in
        let e : record (becomes k ready p) { finished = i ∷ p.finished } ≡ q = cc h' in
        rw (← e) (λ j. omega (arith, b j, total-set (in_hand j) p.workers k ready (running i) a))
  ]
  move-IsBalanced (caught i) q a h = lock-IsBalanced k p q (caught i) (failing i) a (λ j. refl) b h
  move-IsBalanced (failing i) q a h =
      let e : unlock (record (becomes k stopped p) { exceptions = p.exceptions ++ i ∷ [] }) ≡ q =
        cc h in
      rw (← e) (λ j. omega (
        arith,
        b j,
        count-append j i p.exceptions,
        total-set (in_hand j) p.workers k stopped (failing i) a,
      ))
  move-IsBalanced stopped q a h = cc h

started-IsBalanced : (n_jobs : ℕ) → IsBalanced (started n_jobs)
started-IsBalanced n_jobs i = grind (arith, none_in_hand n_jobs)
  where
    none_in_hand : (n : ℕ) → total (in_hand i) (all_ready n) ≡ 0
    none_in_hand zero = refl
    none_in_hand (suc n) = omega (arith, none_in_hand n)

steps-IsBalanced :
    (throws : ℕ → Bool) (stop : ℕ) (ks : List ℕ) (p q : Pool)
    → IsSafe stop p
    → IsBalanced p
    → steps throws stop ks p ≡ some q
    → IsBalanced q
unfolding thread_step
steps-IsBalanced throws stop [] p q s b h = let e : p ≡ q = cc h in rw (← e) b
steps-IsBalanced throws stop (k ∷ ks) p q s b h =
    let (r, first, rest) = >>=-eq-some (thread_step throws stop k p) _ h in
    let (v, a, m) = >>=-eq-some (get_elem? p.workers k) _ first in
    steps-IsBalanced throws stop ks r q (thread_step-IsSafe throws stop k p r s first)
      (move-IsBalanced throws stop p k s b v r a m) rest

-- After any steps of the threads, the calls of fn that are running, have returned or have thrown
-- are one for each position before the shared iterator and none for the others.
pub parallel_run-IsBalanced :
    (throws : ℕ → Bool) (stop n_jobs : ℕ) (ks : List ℕ) (q : Pool)
    → steps throws stop ks (started n_jobs) ≡ some q
    → IsBalanced q
parallel_run-IsBalanced throws stop n_jobs ks q h =
    steps-IsBalanced throws stop ks (started n_jobs) q (started-IsSafe stop n_jobs)
      (started-IsBalanced n_jobs) h

all_stopped-in_hand :
    (i : ℕ) (workers : List Worker) → all_stopped workers ≡ true → total (in_hand i) workers ≡ 0
all_stopped-in_hand i [] h = refl
all_stopped-in_hand i (ready ∷ workers) h = cc
all_stopped-in_hand i (locked ∷ workers) h = cc
all_stopped-in_hand i (taken j ∷ workers) h = cc
all_stopped-in_hand i (running j ∷ workers) h = cc
all_stopped-in_hand i (caught j ∷ workers) h = cc
all_stopped-in_hand i (failing j ∷ workers) h = cc
all_stopped-in_hand i (stopped ∷ workers) h = omega (arith, all_stopped-in_hand i workers h)

all_stopped-first :
    (workers : List Worker)
    → all_stopped workers ≡ true
    → 0 < length workers
    → get_elem? workers 0 ≡ some stopped
all_stopped-first [] h l = ground (arith)
all_stopped-first (ready ∷ workers) h l = cc
all_stopped-first (locked ∷ workers) h l = cc
all_stopped-first (taken j ∷ workers) h l = cc
all_stopped-first (running j ∷ workers) h l = cc
all_stopped-first (caught j ∷ workers) h l = cc
all_stopped-first (failing j ∷ workers) h l = cc
all_stopped-first (stopped ∷ workers) h l = refl

result-exceptions : (p : Pool) → result p ≡ true → p.exceptions ≡ []
result-exceptions p h = at_list p.exceptions h
  where
    at_list : (xs : List ℕ) → (elim xs [ [] ↦ true | e ∷ rest ↦ false ]) ≡ true → xs ≡ []
    at_list [] h = refl
    at_list (x ∷ xs) h = cc

-- When parallel_run was started with at least one thread, all of its threads have stopped after
-- some steps, and it returns true, then fn has returned exactly once for each position of the
-- range and for no other.
pub parallel_run-all :
    (throws : ℕ → Bool) (stop n_jobs : ℕ) (ks : List ℕ) (q : Pool)
    → 0 < n_jobs
    → steps throws stop ks (started n_jobs) ≡ some q
    → all_stopped q.workers ≡ true
    → result q ≡ true
    → (i : ℕ) → count i q.finished ≡ one_if (ltb i stop)
parallel_run-all throws stop n_jobs ks q j h a r i =
    let none_threw = result-exceptions q r in
    let safe = parallel_run-IsSafe throws stop n_jobs ks q h in
    let first =
      all_stopped-first q.workers a
        (omega (arith, j, parallel_run-length throws stop n_jobs ks q h)) in
    let why = safe.fine 0 stopped first in
    let at_stop : q.iter ≡ stop = elim why [ inl n ↦ absurd (n none_threw) | inr e ↦ e ] in
    let no_count : count i q.exceptions ≡ 0 = rw (none_threw) in
    let balance : calls i q ≡ one_if (ltb i q.iter) =
      parallel_run-IsBalanced throws stop n_jobs ks q h i in
    rw (← at_stop) (omega (arith, balance, all_stopped-in_hand i q.workers a, no_count))
