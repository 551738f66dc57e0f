-- ===== src/Glob/Agree.antt =====
-- The walk and the match of a glob agree, where `**` is its last part or no part of it.
use bpt.Prelude.{
  Bool, false, none, some, List, [], ◌∷◌, ◌++◌, ◌≡◌, inl, inr, refl, ap, arith, if◌then◌else◌,
  Bytes, Bool-cases, append_assoc, map,
}
use bpt.Fnmatch.{match}
use bpt.Glob.{
  open_frame, Items, Entry, Entries, file, directory, no_more, entry, filename, check_matches,
}
use bpt.Glob.Walk.Total.{Iterates, iterate_scan}
use bpt.Glob.Walk.{Walkable, scan, scan_entry, below}

-- The paths of all that is in a directory.
unfoldable mutual
  pub paths : Entries → List (List Bytes)
  paths no_more = []
  paths (entry e es) = (filename e ∷ []) ∷ map (λ r. filename e ∷ r) (inside e) ++ paths es

  pub inside : Entry → List (List Bytes)
  inside (file n) = []
  inside (directory n es) = paths es

abbrev pub keep : (List Bytes → Bool) → List (List Bytes) → List (List Bytes)
keep test [] = []
keep test (p ∷ ps) = let rest = keep test ps in if test p then p ∷ rest else rest

abbrev pub LastOnly : Items → Type 0
LastOnly [] = ⊥
LastOnly (i ∷ []) = Unit
LastOnly (none ∷ j ∷ rest) = ⊥
LastOnly (some p ∷ j ∷ rest) = LastOnly (j ∷ rest)

keep-append :
    (test : List Bytes → Bool) (xs ys : List (List Bytes))
    → keep test (xs ++ ys) ≡ keep test xs ++ keep test ys
keep-append test [] ys = refl
keep-append test (x ∷ xs) ys = ground (arith, keep-append test xs ys)

-- Tests that agree on the paths that are not empty keep the same of a directory.
module _ (f g : List Bytes → Bool)
    (same : (n : Bytes) (r : List Bytes) → f (n ∷ r) ≡ g (n ∷ r)) where
  keep-map_same :
      (n : Bytes) (ps : List (List Bytes))
      → keep f (map (λ r. n ∷ r) ps) ≡ keep g (map (λ r. n ∷ r) ps)
  keep-map_same n [] = refl
  keep-map_same n (p ∷ ps) = ground (arith, same n p, keep-map_same n ps)

  keep-paths_same : (es : Entries) → keep f (paths es) ≡ keep g (paths es)
  unfolding paths
  keep-paths_same no_more = refl
  keep-paths_same (entry e es) = ground (
    arith,
    same (filename e) [],
    keep-append f (map (λ r. filename e ∷ r) (inside e)) (paths es),
    keep-append g (map (λ r. filename e ∷ r) (inside e)) (paths es),
    keep-map_same (filename e) (inside e),
    keep-paths_same es,
  )

  keep-inside_same : (e : Entry) → keep f (inside e) ≡ keep g (inside e)
  unfolding inside
  keep-inside_same (file n) = refl
  keep-inside_same (directory n es) = keep-paths_same es

keep-map :
    (test : List Bytes → Bool) (n : Bytes) (ps : List (List Bytes))
    → keep test (map (λ r. n ∷ r) ps) ≡ map (λ r. n ∷ r) (keep (λ r. test (n ∷ r)) ps)
keep-map test n [] = refl
keep-map test n (p ∷ ps) = ground (arith, keep-map test n ps)

keep_none : (ps : List (List Bytes)) → keep (λ _. false) ps ≡ []
keep_none [] = refl
keep_none (p ∷ ps) = keep_none ps

under : List Bytes → List (List Bytes) → List (List Bytes)
under root ps = map (λ r. root ++ r) ps

under-append :
    (root : List Bytes) (xs ys : List (List Bytes))
    → under root (xs ++ ys) ≡ under root xs ++ under root ys
unfolding under
under-append root [] ys = refl
under-append root (x ∷ xs) ys = ap (λ l. (root ++ x) ∷ l) (under-append root xs ys)

under-map :
    (root : List Bytes) (n : Bytes) (ps : List (List Bytes))
    → under (root ++ n ∷ []) ps ≡ under root (map (λ r. n ∷ r) ps)
unfolding under
under-map root n [] = refl
under-map root n (p ∷ ps) = rw (append_assoc root (n ∷ []) p, under-map root n ps)

-- One entry, given that what is found in it is what is kept of the paths in it.
module _ (root : List Bytes) (e : Entry)
    (found : (items : Items)
      → LastOnly items
      → below root items e
        ≡ under (root ++ filename e ∷ []) (keep (check_matches items) (inside e))) where
  kept_inside :
      (f : List Bytes → Bool) (items : Items)
      → LastOnly items
      → ((n : Bytes) (r : List Bytes) → f (filename e ∷ n ∷ r) ≡ check_matches items (n ∷ r))
      → below root items e ≡ under root (keep f (map (λ r. filename e ∷ r) (inside e)))
  kept_inside f items h same =
      rw
        (
          keep-map f (filename e) (inside e),
          ← under-map root (filename e) (keep (λ r. f (filename e ∷ r)) (inside e)),
          keep-inside_same (λ r. f (filename e ∷ r)) (check_matches items) same e,
        )
        (found items h)

  kept_nothing :
      (f : List Bytes → Bool)
      → ((n : Bytes) (r : List Bytes) → f (filename e ∷ n ∷ r) ≡ false)
      → keep f (map (λ r. filename e ∷ r) (inside e)) ≡ []
  kept_nothing f same = rw (
    keep-map f (filename e) (inside e),
    keep-inside_same (λ r. f (filename e ∷ r)) (λ _. false) same e,
    keep_none (inside e),
  )

  scan_entry_kept :
      (items : Items)
      → LastOnly items
      → scan_entry root items e (λ i. below root i e)
        ≡ under root
            (keep (check_matches items) ((filename e ∷ []) ∷ map (λ r. filename e ∷ r) (inside e)))
  unfolding scan_entry check_matches under
  scan_entry_kept [] h = absurd h
  scan_entry_kept (none ∷ []) h =
      ap (λ l. (root ++ filename e ∷ []) ∷ l)
        (kept_inside (check_matches (none ∷ [])) (none ∷ []) tt (λ n r. refl))
  scan_entry_kept (none ∷ j ∷ rest) h = absurd h
  scan_entry_kept (some p ∷ []) h = elim (Bool-cases (match p (filename e))) [
    | inl hit ↦ rw (hit, kept_nothing (check_matches (some p ∷ [])) (λ n r. rw (hit)))
    | inr miss ↦ rw (miss, kept_nothing (check_matches (some p ∷ [])) (λ n r. rw (miss)))
  ]
  scan_entry_kept (some p ∷ i ∷ rest) h = elim (Bool-cases (match p (filename e))) [
    | inl hit ↦
        rw (hit) (kept_inside (check_matches (some p ∷ i ∷ rest)) (i ∷ rest) h (λ n r. rw (hit)))
    | inr miss ↦ rw (miss, kept_nothing (check_matches (some p ∷ i ∷ rest)) (λ n r. rw (miss)))
  ]

scan_kept :
    (root : List Bytes) (items : Items)
    → LastOnly items
    → (es : Entries) → scan root items es ≡ under root (keep (check_matches items) (paths es))
unfolding scan paths under
scan_kept root items h no_more = refl
scan_kept root items h (entry (file n) es) = rw (
  scan_entry_kept root (file n) (λ i k. refl) items h,
  scan_kept root items h es,
  ← under-append root (keep (check_matches items) ((n ∷ []) ∷ []))
      (keep (check_matches items) (paths es)),
  ← keep-append (check_matches items) ((n ∷ []) ∷ []) (paths es),
)
scan_kept root items h (entry (directory n es') es) =
    let here = (n ∷ []) ∷ map (λ r. n ∷ r) (paths es') in
    rw (
      scan_entry_kept root (directory n es') (λ i k. scan_kept (root ++ n ∷ []) i k es') items h,
      scan_kept root items h es,
      ← under-append root (keep (check_matches items) here) (keep (check_matches items) (paths es)),
      ← keep-append (check_matches items) here (paths es),
    )

LastOnly-Walkable : (items : Items) → LastOnly items → Walkable items
LastOnly-Walkable [] h = h
LastOnly-Walkable (none ∷ []) h = tt
LastOnly-Walkable (none ∷ j ∷ rest) h = absurd h
LastOnly-Walkable (some p ∷ []) h = tt
LastOnly-Walkable (some p ∷ j ∷ rest) h = LastOnly-Walkable (j ∷ rest) h

-- With a glob in which `**` is the last part or no part, the iterator over a directory ends and
-- dereferences to exactly the paths in the directory that `check_matches` accepts, in the order
-- of the directory and each below the root.
pub iterate_matches :
    (root : List Bytes) (es : Entries) (items : Items)
    → LastOnly items
    → Iterates
        (open_frame root es items ∷ [])
        (map (λ r. root ++ r) (keep (check_matches items) (paths es)))
unfolding under
iterate_matches root es items h =
    rw (← scan_kept root items h es) (iterate_scan root es items (LastOnly-Walkable items h))
