-- ===== src/Parallel/Workers.antt =====
-- What changes when one thread moves to another place.
use bpt.Prelude.{ℕ, zero, suc, ◌+◌, some, List, [], ◌∷◌, ◌≡◌, ◌≢◌, refl, ap, arith, get_elem?}
use bpt.Parallel.{Worker, set}

pub get_elem?-set :
    (workers : List Worker) (k : ℕ) (w v : Worker)
    → get_elem? workers k ≡ some v
    → get_elem? (set workers k w) k ≡ some w
get_elem?-set [] k w v h = cc
get_elem?-set (u ∷ workers) zero w v h = refl
get_elem?-set (u ∷ workers) (suc k) w v h = get_elem?-set workers k w v h

pub get_elem?-set_other :
    (workers : List Worker) (k j : ℕ) (w : Worker)
    → j ≢ k
    → get_elem? (set workers k w) j ≡ get_elem? workers j
get_elem?-set_other [] k j w n = refl
get_elem?-set_other (u ∷ workers) zero zero w n = absurd (n refl)
get_elem?-set_other (u ∷ workers) zero (suc j) w n = refl
get_elem?-set_other (u ∷ workers) (suc k) zero w n = refl
get_elem?-set_other (u ∷ workers) (suc k) (suc j) w n =
    get_elem?-set_other workers k j w (λ e. n (ap suc e))

-- The sum of a number for each thread.
abbrev pub total : (Worker → ℕ) → List Worker → ℕ
total f [] = 0
total f (w ∷ workers) = f w + total f workers

pub total-set :
    (f : Worker → ℕ) (workers : List Worker) (k : ℕ) (w v : Worker)
    → get_elem? workers k ≡ some v
    → total f (set workers k w) + f v ≡ total f workers + f w
total-set f [] k w v h = cc
total-set f (u ∷ workers) zero w v h = let e : u ≡ v = cc h in rw (e) (omega arith)
total-set f (u ∷ workers) (suc k) w v h = omega (arith, total-set f workers k w v h)
