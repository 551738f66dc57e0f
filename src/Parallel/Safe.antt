-- ===== src/Parallel/Safe.antt =====
-- The mutex is kept by every thread_step.
use bpt.Prelude.{
  ℕ, zero, suc, ◌≤◌, Bool, true, false, Option, none, some, List, [], ◌∷◌, ◌++◌, ◌==◌, ==_iff, ◌≡◌,
  ◌≢◌, inl, inr, refl, sym, ap, ◌∙◌, arith, get_elem?, Bool-cases, Option-cases, >>=-eq-some,
}
use bpt.Parallel.{
  Worker, ready, locked, taken, running, caught, failing, stopped, Pool, set, becomes, lock, unlock,
  check, move, thread_step, steps, started, all_ready,
}
use bpt.Parallel.Workers.{get_elem?-set, get_elem?-set_other}
use bpt.Parallel.Locks.{Over, Fine, critical, IsSafe, Fine-after, take_mutex, give_mutex}

Fine-along :
    (stop iter : ℕ) (exceptions : List ℕ) (j : ℕ) (u : Worker) {m m' : Option ℕ}
    → m ≡ m'
    → Fine stop m iter exceptions j u
    → Fine stop m' iter exceptions j u
Fine-along stop iter exceptions j u e f = rw (← e) f

module _ (stop : ℕ) (p : Pool) (k : ℕ) (v : Worker) (s : IsSafe stop p)
    (at_k : get_elem? p.workers k ≡ some v) where
  lock-IsSafe :
      (w : Worker) (q : Pool)
      → critical w ≡ true
      → Fine stop (some k) p.iter p.exceptions k w
      → lock k w p ≡ some q
      → IsSafe stop q
  lock-IsSafe w q c own h = elim (Option-cases p.mut) [
    | inr (j, m) ↦ let h' = rw (m) at h in cc h'
    | inl m ↦
        let h' = rw (m) at h in
        let e : record (becomes k w p) { mut = some k } ≡ q = cc h' in
        rw (← e) (record {
          fine = Fine-after stop p k v w (some k) p.iter p.exceptions s at_k own (λ j u n f.
              take_mutex stop p.iter p.exceptions (some k) j u
                (Fine-along stop p.iter p.exceptions j u m f));
          within = s.within;
          held = λ j i.
              let same : k ≡ j = cc i in rw (← same) (w, get_elem?-set p.workers k w v at_k, c);
        })
  ]

  -- The holder gives the mutex up.
  unlock-IsSafe :
      (w : Worker) (iter : ℕ) (exceptions finished : List ℕ)
      → p.mut ≡ some k
      → Fine stop none iter exceptions k w
      → (Over stop p.iter p.exceptions → Over stop iter exceptions)
      → iter ≤ stop
      → IsSafe stop (record {
        workers = set p.workers k w;
        mut = none;
        iter = iter;
        exceptions = exceptions;
        finished = finished;
      })
  unlock-IsSafe w iter exceptions finished m own over le = record {
    fine = Fine-after stop p k v w none iter exceptions s at_k own (λ j u n f.
        give_mutex stop p.iter iter p.exceptions exceptions none k j u n over
          (Fine-along stop p.iter p.exceptions j u m f));
    within = le;
    held = λ j i. cc i;
  }

  -- A thread_step inside of the lock that ends nothing, and one outside of it.
  hold-IsSafe :
      (w : Worker)
      → p.mut ≡ some k
      → critical w ≡ true
      → Fine stop (some k) p.iter p.exceptions k w
      → IsSafe stop (becomes k w p)
  hold-IsSafe w m c own = record {
    fine =
        Fine-after stop p k v w p.mut p.iter p.exceptions s at_k
          (Fine-along stop p.iter p.exceptions k w (sym m) own) (λ j u n f. f);
    within = s.within;
    held = λ j i.
        let same : k ≡ j = cc (m, i) in rw (← same) (w, get_elem?-set p.workers k w v at_k, c);
  }

  free-IsSafe :
      (w : Worker) (finished : List ℕ)
      → critical v ≡ false
      → Fine stop p.mut p.iter p.exceptions k w
      → IsSafe stop (record (becomes k w p) { finished = finished })
  free-IsSafe w finished c own = record {
    fine = Fine-after stop p k v w p.mut p.iter p.exceptions s at_k own (λ j u n f. f);
    within = s.within;
    held = λ j i.
        let (u, h, d) = s.held j i in
        (
          u,
          get_elem?-set_other p.workers k j w (λ same.
                let at_j : get_elem? p.workers j ≡ some v = rw (same) at_k in
                let uv : u ≡ v = cc (h, at_j) in cc (ap critical uv, c, d))
              ∙ h,
          d,
        );
  }

  check-IsSafe :
      (exceptions : List ℕ)
      → exceptions ≡ p.exceptions
      → p.mut ≡ some k
      → IsSafe stop (check stop k exceptions p)
  check-IsSafe (e ∷ exceptions) h m =
      unlock-IsSafe stopped p.iter p.exceptions p.finished m (inl (λ n. cc)) (λ o. o) s.within
  check-IsSafe [] h m = elim (Bool-cases (p.iter == stop)) [
    | inl at_stop ↦
        rw (check, at_stop)
          (unlock-IsSafe stopped p.iter p.exceptions p.finished m
            (inr ((==_iff p.iter stop).0 at_stop)) (λ o. o) s.within)
    | inr before ↦
        rw (check, before)
          (hold-IsSafe (taken p.iter) m refl (refl, refl, ground (arith, s.within)))
  ]

append_nonempty : (xs : List ℕ) (i : ℕ) → (xs ++ i ∷ []) ≢ []
append_nonempty [] i h = cc
append_nonempty (x ∷ xs) i h = cc

module _ (throws : ℕ → Bool) (stop : ℕ) (p : Pool) (k : ℕ) where
  move-IsSafe :
      (v : Worker) (q : Pool)
      → IsSafe stop p
      → get_elem? p.workers k ≡ some v
      → move throws stop k v p ≡ some q
      → IsSafe stop q
  move-IsSafe ready q s a h = lock-IsSafe stop p k ready s a locked q refl refl h
  move-IsSafe locked q s a h =
      let e : check stop k p.exceptions p ≡ q = cc h in
      rw (← e) (check-IsSafe stop p k locked s a p.exceptions refl (s.fine k locked a))
  move-IsSafe (taken i) q s a h =
      let (m, at_iter, below) = s.fine k (taken i) a in
      let e : unlock (record (becomes k (running i) p) { iter = suc p.iter }) ≡ q = cc h in
      rw (← e) (
        unlock-IsSafe stop p k (taken i) s a (running i) (suc p.iter) p.exceptions p.finished m tt
          (λ o. elim o [ inl n ↦ inl n | inr r ↦ ground (arith) ]) below)
  move-IsSafe (running i) q s a h = elim (Bool-cases (throws i)) [
    | inl t ↦
        let h' = rw (t) at h in
        let e : becomes k (caught i) p ≡ q = cc h' in
        rw (← e) (free-IsSafe stop p k (running i) s a (caught i) p.finished refl tt)
    | inr t ↦
        let h' = rw (t) at h in
        let e : record (becomes k ready p) { finished = i ∷ p.finished } ≡ q = cc h' in
        rw (← e) (free-IsSafe stop p k (running i) s a ready (i ∷ p.finished) refl tt)
  ]
  move-IsSafe (caught i) q s a h = lock-IsSafe stop p k (caught i) s a (failing i) q refl refl h
  move-IsSafe (failing i) q s a h =
      let e : unlock (record (becomes k stopped p) { exceptions = p.exceptions ++ i ∷ [] }) ≡ q =
        cc h in
      rw (← e) (
        unlock-IsSafe stop p k (failing i) s a stopped p.iter (p.exceptions ++ i ∷ []) p.finished
          (s.fine k (failing i) a) (inl (append_nonempty p.exceptions i))
          (λ o. inl (append_nonempty p.exceptions i)) s.within)
  move-IsSafe stopped q s a h = cc h

all_ready-ready : (n k : ℕ) (w : Worker) → get_elem? (all_ready n) k ≡ some w → w ≡ ready
all_ready-ready zero k w h = cc
all_ready-ready (suc n) zero w h = cc h
all_ready-ready (suc n) (suc k) w h = all_ready-ready n k w h

pub started-IsSafe : (stop n_jobs : ℕ) → IsSafe stop (started n_jobs)
started-IsSafe stop n_jobs = record {
  fine = λ k w h. rw (all_ready-ready n_jobs k w h) tt;
  within = ground (arith);
  held = λ k h. cc h;
}

pub thread_step-IsSafe :
    (throws : ℕ → Bool) (stop k : ℕ) (p q : Pool)
    → IsSafe stop p
    → thread_step throws stop k p ≡ some q
    → IsSafe stop q
unfolding thread_step
thread_step-IsSafe throws stop k p q s h =
    let (v, a, m) = >>=-eq-some (get_elem? p.workers k) _ h in move-IsSafe throws stop p k v q s a m

pub steps-IsSafe :
    (throws : ℕ → Bool) (stop : ℕ) (ks : List ℕ) (p q : Pool)
    → IsSafe stop p
    → steps throws stop ks p ≡ some q
    → IsSafe stop q
steps-IsSafe throws stop [] p q s h = let e : p ≡ q = cc h in rw (← e) s
steps-IsSafe throws stop (k ∷ ks) p q s h =
    let (r, first, rest) = >>=-eq-some (thread_step throws stop k p) _ h in
    steps-IsSafe throws stop ks r q (thread_step-IsSafe throws stop k p r s first) rest

-- After any steps of the threads, a thread that is between taking and giving up the mutex is the
-- one that has it, the item it has taken is the one at the shared iterator and lies in the range,
-- the iterator is at most the end, and a thread that has stopped saw an exception or the end of
-- the range, and the one recorded as having the mutex is in such a place.
pub parallel_run-IsSafe :
    (throws : ℕ → Bool) (stop n_jobs : ℕ) (ks : List ℕ) (q : Pool)
    → steps throws stop ks (started n_jobs) ≡ some q
    → IsSafe stop q
parallel_run-IsSafe throws stop n_jobs ks q h =
    steps-IsSafe throws stop ks (started n_jobs) q (started-IsSafe stop n_jobs) h
