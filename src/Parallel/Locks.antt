-- ===== src/Parallel/Locks.antt =====
-- The mutex: a thread that tests or changes what the threads share has it.
use bpt.Prelude.{
  ℕ, ◌≤◌, ◌<◌, Bool, true, false, Option, none, some, List, [], ◌==◌, ==_iff, ◌≡◌, ◌≢◌, ◌⊎◌, inl,
  inr, sym, ◌∙◌, get_elem?, Bool-cases,
}
use bpt.Parallel.{Worker, ready, locked, taken, running, caught, failing, stopped, Pool, set}
use bpt.Parallel.Workers.{get_elem?-set, get_elem?-set_other}

-- The loop has a reason to end.
abbrev pub Over : ℕ → ℕ → List ℕ → Type 0
Over stop iter exceptions = (exceptions ≢ []) ⊎ (iter ≡ stop)

-- What holds of a thread, by the place where it stands.
abbrev pub Fine : ℕ → Option ℕ → ℕ → List ℕ → ℕ → Worker → Type 0
Fine stop mut iter exceptions k ready = Unit
Fine stop mut iter exceptions k locked = mut ≡ some k
Fine stop mut iter exceptions k (taken i) = (mut ≡ some k) × (i ≡ iter) × (iter < stop)
Fine stop mut iter exceptions k (running i) = Unit
Fine stop mut iter exceptions k (caught i) = Unit
Fine stop mut iter exceptions k (failing i) = mut ≡ some k
Fine stop mut iter exceptions k stopped = Over stop iter exceptions

abbrev pub critical : Worker → Bool
critical ready = false
critical locked = true
critical (taken i) = true
critical (running i) = false
critical (caught i) = false
critical (failing i) = true
critical stopped = false

pub record IsSafe (stop : ℕ) (p : Pool) : Type 0 where
  pub fine :
      (k : ℕ) (w : Worker)
      → get_elem? p.workers k ≡ some w
      → Fine stop p.mut p.iter p.exceptions k w
  pub within : p.iter ≤ stop
  pub held :
      (k : ℕ)
      → p.mut ≡ some k
      → (w : Worker) × (get_elem? p.workers k ≡ some w) × (critical w ≡ true)

-- The thread `k` moves to `w`: what holds there, and what it leaves to the others.
pub Fine-after :
    (stop : ℕ) (p : Pool) (k : ℕ) (v w : Worker) (mut : Option ℕ) (iter : ℕ) (exceptions : List ℕ)
    → IsSafe stop p
    → get_elem? p.workers k ≡ some v
    → Fine stop mut iter exceptions k w
    → ((j : ℕ) (u : Worker)
        → j ≢ k
        → Fine stop p.mut p.iter p.exceptions j u
        → Fine stop mut iter exceptions j u)
    → (j : ℕ) (u : Worker) → get_elem? (set p.workers k w) j ≡ some u
    → Fine stop mut iter exceptions j u
Fine-after stop p k v w mut iter exceptions s at_k own others j u h = elim (Bool-cases (j == k)) [
  | inl same ↦
      let e : j ≡ k = (==_iff j k).0 same in
      let is : w ≡ u = cc (get_elem?-set p.workers k w v at_k, h, e) in rw (← is, e) own
  | inr other ↦
      let n : j ≢ k = λ e. cc ((==_iff j k).1 e) in
      others j u n (s.fine j u (sym (get_elem?-set_other p.workers k j w n) ∙ h))
]

-- Without the mutex no thread is in a place that needs it.
pub take_mutex :
    (stop iter : ℕ) (exceptions : List ℕ) (mut : Option ℕ) (j : ℕ) (u : Worker)
    → Fine stop none iter exceptions j u
    → Fine stop mut iter exceptions j u
take_mutex stop iter exceptions mut j ready f = tt
take_mutex stop iter exceptions mut j locked f = cc
take_mutex stop iter exceptions mut j (taken i) f = cc (f.0)
take_mutex stop iter exceptions mut j (running i) f = tt
take_mutex stop iter exceptions mut j (caught i) f = tt
take_mutex stop iter exceptions mut j (failing i) f = cc
take_mutex stop iter exceptions mut j stopped f = f

-- What the holder of the mutex does keeps the others fine, when no reason to end goes away.
pub give_mutex :
    (stop iter iter' : ℕ) (exceptions exceptions' : List ℕ) (mut : Option ℕ) (k j : ℕ) (u : Worker)
    → j ≢ k
    → (Over stop iter exceptions → Over stop iter' exceptions')
    → Fine stop (some k) iter exceptions j u
    → Fine stop mut iter' exceptions' j u
give_mutex stop iter iter' exceptions exceptions' mut k j ready n o f = tt
give_mutex stop iter iter' exceptions exceptions' mut k j locked n o f = absurd (n (cc f))
give_mutex stop iter iter' exceptions exceptions' mut k j (taken i) n o f = absurd (n (cc (f.0)))
give_mutex stop iter iter' exceptions exceptions' mut k j (running i) n o f = tt
give_mutex stop iter iter' exceptions exceptions' mut k j (caught i) n o f = tt
give_mutex stop iter iter' exceptions exceptions' mut k j (failing i) n o f = absurd (n (cc f))
give_mutex stop iter iter' exceptions exceptions' mut k j stopped n o f = o f
