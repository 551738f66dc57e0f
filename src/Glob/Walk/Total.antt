-- ===== src/Glob/Walk/Total.antt =====
-- The iterator over a glob ends, and dereferences to the paths of `scan` one after the other.
use bpt.Prelude.{ℕ, zero, suc, ◌<◌, none, some, List, [], ◌∷◌, ◌++◌, ◌≡◌, refl, ap, arith, Bytes}
use bpt.Glob.{
  Items, Entries, file, directory, no_more, entry, Ret, reenter_again, yield_value, done, Frame,
  open_frame, run_frame, reenter, get_entry, increment,
}
use bpt.Glob.Walk.{scan, Runs, stop, again, yields, Runs-trans, Walkable, Walked}
use bpt.Glob.Walk.Steps.{file_run, directory_run}

all_entries-Walked :
    (path : List Bytes) (items : Items) (es : Entries) → Walkable items → Walked path items es
unfolding scan
all_entries-Walked path items no_more h c = (c, stop)
all_entries-Walked path items (entry (file n) es) h c =
    let (d, r) = all_entries-Walked path items es h (some (file n)) in
    (d, Runs-trans (file_run path c es n items h) r)
all_entries-Walked path items (entry (directory n inside) es) h c =
    let (d, r) = all_entries-Walked path items es h (some (directory n inside)) in
    (
      d,
      Runs-trans
          (directory_run path c es n inside (λ i k. all_entries-Walked (path ++ n ∷ []) i inside k)
            items h)
          r,
    )

-- Increments and dereferences until the iterator is done; every fuel from some number on gives
-- what is stated of an increment.
pub data Iterates : List Frame → List (List Bytes) → Type 0 where
  finished :
      (fs gs : List Frame) (k : ℕ)
      → ((n : ℕ) → k < n → increment n fs ≡ (done, gs))
      → Iterates fs []
  next :
      (fs gs : List Frame) (y : List Bytes) (ys : List (List Bytes)) (k : ℕ)
      → ((n : ℕ) → k < n → increment n fs ≡ (yield_value, gs))
      → get_entry gs ≡ some y
      → Iterates gs ys
      → Iterates fs (y ∷ ys)

increment_again :
    (fs gs : List Frame) (k : ℕ) (r : Ret × List Frame)
    → reenter fs ≡ (reenter_again, gs)
    → ((n : ℕ) → k < n → increment n gs ≡ r)
    → (n : ℕ) → suc k < n
    → increment n fs ≡ r
unfolding increment
increment_again fs gs k r e i zero h = absurd (omega arith)
increment_again fs gs k r e i (suc n) h = ground (arith, i n, ap (λ a. increment n a.1) e)

increment_done :
    (fs gs : List Frame) → reenter fs ≡ (done, gs) → (n : ℕ) → 0 < n → increment n fs ≡ (done, gs)
unfolding increment
increment_done fs gs e zero h = absurd (omega arith)
increment_done fs gs e (suc n) h = rw (increment, e) e

increment_yields :
    (fs gs : List Frame)
    → reenter fs ≡ (yield_value, gs)
    → (n : ℕ) → 0 < n
    → increment n fs ≡ (yield_value, gs)
unfolding increment
increment_yields fs gs e zero h = absurd (omega arith)
increment_yields fs gs e (suc n) h = rw (increment, e) e

Iterates-reenter :
    (fs gs : List Frame) (ys : List (List Bytes))
    → reenter fs ≡ (reenter_again, gs)
    → Iterates gs ys
    → Iterates fs ys
Iterates-reenter fs gs [] e (finished xs hs k i) =
    finished fs hs (suc k) (increment_again fs gs k _ e i)
Iterates-reenter fs gs (x ∷ xs) e (next ws hs y ys k i q r) =
    next fs hs y ys (suc k) (increment_again fs gs k _ e i) q r

Runs-Iterates :
    (fs gs hs : List Frame) (ys : List (List Bytes))
    → Runs fs ys gs
    → reenter gs ≡ (done, hs)
    → Iterates fs ys
Runs-Iterates fs gs hs ys stop e = finished fs hs 0 (increment_done fs hs e)
Runs-Iterates fs gs hs ys (again f g r n o zs q more) e =
    Iterates-reenter _ _ zs q (Runs-Iterates (g ∷ n) o hs zs more e)
Runs-Iterates fs gs hs ys (yields f g r n o z zs q p more) e =
    next _ (g ∷ n) z zs 0 (increment_yields _ _ q) p (Runs-Iterates (g ∷ n) o hs zs more e)

-- From the start of a walk over a directory, with a glob that has a pattern and no `**` before a
-- `**`, the increments end, each at a yield or at the end of the walk, and the iterator
-- dereferences to the paths of `scan`, in this order and no others.
pub iterate_scan :
    (root : List Bytes) (es : Entries) (items : Items)
    → Walkable items
    → Iterates (open_frame root es items ∷ []) (scan root items es)
unfolding reenter run_frame
iterate_scan root es items h =
    let (d, r) = all_entries-Walked root items es h none in
    Runs-Iterates _ _ _ (scan root items es) r refl
