-- ===== src/Glob/Walk/Steps.antt =====
-- One round of a state of the walk, for an entry that is a file and for one that is a directory.
use mathlib.Core.Path.{subst}
use bpt.Prelude.{
  Option, none, some, List, [], ◌∷◌, ◌++◌, ◌≡◌, inl, inr, refl, Bytes, Bool-cases, append-nil,
}
use bpt.Fnmatch.{match}
use bpt.Glob.{
  Items, Entry, Entries, file, directory, entry, reenter_again, Label, at_start, leaf_yielded,
  match_entered, match_yielded, descended, yielded, entered, Frame, open_frame, visit, run_frame,
  reenter,
}
use bpt.Glob.Walk.{
  scan_entry, scan, Runs, stop, again, yields, Runs-trans, run_directory, Walkable, at, Walked,
}

-- Steps of one state: on with the next entry, and through a directory.
module _ (f g : Frame) where
  enter_run :
      (path : List Bytes) (es : Entries) (items : Items)
      → reenter (f ∷ []) ≡ (reenter_again, g ∷ open_frame path es items ∷ [])
      → Walked path items es
      → Runs (f ∷ []) (scan path items es) (g ∷ [])
  enter_run path es items e w =
      let (c, r) = w none in again f g [] _ _ _ e (run_directory g path es items _ c r)

  continue_run : reenter (f ∷ []) ≡ (reenter_again, g ∷ []) → Runs (f ∷ []) [] (g ∷ [])
  continue_run e = again f g [] [] _ _ e stop

  enter_once :
      (h : Frame) (path : List Bytes) (es : Entries) (items : Items)
      → reenter (f ∷ []) ≡ (reenter_again, g ∷ open_frame path es items ∷ [])
      → reenter (g ∷ []) ≡ (reenter_again, h ∷ [])
      → Walked path items es
      → Runs (f ∷ []) (scan path items es) (h ∷ [])
  enter_once h path es items e next w =
      subst (λ ys. Runs (f ∷ []) ys (h ∷ [])) (append-nil (scan path items es))
        (Runs-trans (enter_run path es items e w) (again g h [] [] _ _ next stop))

-- A new entry that is a file.
module _ (root : List Bytes) (c : Option Entry) (es : Entries) (n : Bytes) where
  pub file_run :
      (items : Items)
      → Walkable items
      → Runs
          (at root items at_start c (entry (file n) es) ∷ [])
          (scan_entry root items (file n) (λ i. []))
          (at root items at_start (some (file n)) es ∷ [])
  unfolding scan_entry reenter run_frame visit
  file_run [] h = absurd h
  file_run (none ∷ []) h =
      yields _ (at root (none ∷ []) leaf_yielded (some (file n)) es) [] [] _ _ _ refl refl
        (continue_run _ _ refl)
  file_run (none ∷ none ∷ rest) h = absurd h
  file_run (none ∷ some p ∷ rest) h = elim (Bool-cases (match p n)) [
    | inl hit ↦ rw (hit) (
        yields _ (at root (none ∷ some p ∷ rest) match_yielded (some (file n)) es) [] [] _ _ _
          (rw (hit)) refl (continue_run _ _ refl))
    | inr miss ↦ rw (miss) (continue_run _ _ (rw (miss)))
  ]
  file_run (some p ∷ []) h = elim (Bool-cases (match p n)) [
    | inl hit ↦ rw (hit) (
        yields _ (at root (some p ∷ []) yielded (some (file n)) es) [] [] _ _ _ (rw (hit)) refl
          (continue_run _ _ refl))
    | inr miss ↦ rw (miss) (continue_run _ _ (rw (miss)))
  ]
  file_run (some p ∷ i ∷ rest) h = elim (Bool-cases (match p n)) [
    | inl hit ↦ rw (hit) (continue_run _ _ (rw (hit)))
    | inr miss ↦ rw (miss) (continue_run _ _ (rw (miss)))
  ]

-- The same for a directory, given the walks of it with the patterns that it can be entered with.
module _ (root : List Bytes) (c : Option Entry) (es : Entries) (n : Bytes) (inside : Entries)
    (walked : (items : Items) → Walkable items → Walked (root ++ n ∷ []) items inside) where
  abbrev here : Items → Label → Frame
  here items l = at root items l (some (directory n inside)) es

  pub directory_run :
      (items : Items)
      → Walkable items
      → Runs
          (at root items at_start c (entry (directory n inside) es) ∷ [])
          (scan_entry root items (directory n inside) (λ i. scan (root ++ n ∷ []) i inside))
          (here items at_start ∷ [])
  unfolding scan_entry reenter run_frame visit
  directory_run [] h = absurd h
  directory_run (none ∷ []) h = yields _ (here (none ∷ []) leaf_yielded) [] [] _ _ _ refl refl (
      enter_once _ (here (none ∷ []) descended) _ _ inside (none ∷ []) refl refl
        (walked (none ∷ []) h))
  directory_run (none ∷ none ∷ rest) h = absurd h
  directory_run (none ∷ some p ∷ rest) h =
      let i = none ∷ some p ∷ rest in
      elim (Bool-cases (match p n)) [
        | inl hit ↦ rw (hit) (
            Runs-trans
              (enter_run _ (here i match_entered) _ inside (some p ∷ rest) (rw (hit))
                (walked (some p ∷ rest) h))
              (enter_once (here i match_entered) (here i descended) (here i at_start) _ inside i
                refl refl (walked i h)))
        | inr miss ↦ rw (miss) (
            enter_once _ (here i descended) (here i at_start) _ inside i (rw (miss)) refl
              (walked i h))
      ]
  directory_run (some p ∷ []) h = elim (Bool-cases (match p n)) [
    | inl hit ↦
        rw (hit) (
          yields _ (here (some p ∷ []) yielded) [] [] _ _ _ (rw (hit)) refl (continue_run _ _ refl))
    | inr miss ↦ rw (miss) (continue_run _ _ (rw (miss)))
  ]
  directory_run (some p ∷ i ∷ rest) h = elim (Bool-cases (match p n)) [
    | inl hit ↦ rw (hit) (
        enter_once _ (here (some p ∷ i ∷ rest) entered) (here (some p ∷ i ∷ rest) at_start) _ inside
          (i ∷ rest) (rw (hit)) refl (walked (i ∷ rest) h))
    | inr miss ↦ rw (miss) (continue_run _ _ (rw (miss)))
  ]
