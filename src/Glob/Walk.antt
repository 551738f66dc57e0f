-- ===== src/Glob/Walk.antt =====
-- What the coroutine yields, as a recursion over the directory tree.
pub mod Steps
pub mod Total
use mathlib.Core.Path.{subst}
use bpt.Prelude.{
  ℕ, zero, suc, Bool, true, false, Option, none, some, List, [], ◌∷◌, ◌++◌, ◌≡◌, ◌≢◌, ◌⊎◌, inl, inr,
  refl, sym, ap, ◌∙◌, arith, if◌then◌else◌, Bytes, Bool-cases, append_assoc, append-nil,
}
use bpt.Fnmatch.{Pattern, match}
use bpt.Glob.{
  Items, Entry, Entries, file, directory, no_more, entry, filename, Ret, reenter_again, yield_value,
  done, thrown, Label, at_start, leaf_yielded, match_entered, match_yielded, descended, yielded,
  entered, Frame, open_frame, visit, run_frame, reenter, get_entry,
}

abbrev path : List Bytes → Entry → List Bytes
path root e = root ++ filename e ∷ []

-- An entry that matches the pattern behind a `**`: a file, or what is found in the directory.
abbrev pub into : List Bytes → Entry → List (List Bytes) → List (List Bytes)
into root (file n) inside = path root (file n) ∷ []
into root (directory n es) inside = inside

-- The paths for one entry; `below` is what other patterns find in it.
unfoldable pub scan_entry :
    List Bytes → Items → Entry → (Items → List (List Bytes)) → List (List Bytes)
unfolding match
scan_entry root [] e below = []
scan_entry root (none ∷ []) e below = path root e ∷ below (none ∷ [])
scan_entry root (none ∷ none ∷ rest) e below = []
scan_entry root (none ∷ some p ∷ rest) e below =
    if match p (filename e)
    then into root e (below (some p ∷ rest)) ++ below (none ∷ some p ∷ rest)
    else below (none ∷ some p ∷ rest)
scan_entry root (some p ∷ []) e below = if match p (filename e) then path root e ∷ [] else []
scan_entry root (some p ∷ i ∷ rest) e below = if match p (filename e) then below (i ∷ rest) else []

-- The paths that a walk yields, in order.
unfoldable mutual
  unfolding scan_entry

  pub scan : List Bytes → Items → Entries → List (List Bytes)
  scan root items no_more = []
  scan root items (entry e es) = scan_entry root items e (λ i. below root i e) ++ scan root items es

  pub below : List Bytes → Items → Entry → List (List Bytes)
  below root items (file n) = []
  below root items (directory n es) = scan (root ++ n ∷ []) items es

-- Calls of `reenter` one after the other, with the paths that are dereferenced at the yields.
pub data Runs : List Frame → List (List Bytes) → List Frame → Type 0 where
  stop : {fs : List Frame} → Runs fs [] fs
  again :
      (f g : Frame) (fs gs hs : List Frame) (ys : List (List Bytes))
      → reenter (f ∷ fs) ≡ (reenter_again, g ∷ gs)
      → Runs (g ∷ gs) ys hs
      → Runs (f ∷ fs) ys hs
  yields :
      (f g : Frame) (fs gs hs : List Frame) (y : List Bytes) (ys : List (List Bytes))
      → reenter (f ∷ fs) ≡ (yield_value, g ∷ gs)
      → get_entry (g ∷ gs) ≡ some y
      → Runs (g ∷ gs) ys hs
      → Runs (f ∷ fs) (y ∷ ys) hs

pub Runs-trans :
    {fs gs hs : List Frame} {xs ys : List (List Bytes)}
    → Runs fs xs gs
    → Runs gs ys hs
    → Runs fs (xs ++ ys) hs
Runs-trans stop k = k
Runs-trans (again f g fs gs hs ys e r) k = again f g fs gs _ _ e (Runs-trans r k)
Runs-trans (yields f g fs gs hs y ys e q r) k = yields f g fs gs _ y _ e q (Runs-trans r k)

-- A run of inner states is one below an outer state.
Runs-outer :
    (o : Frame) {fs gs : List Frame} {ys : List (List Bytes)}
    → Runs fs ys gs
    → Runs (o ∷ fs) ys (o ∷ gs)
unfolding reenter
Runs-outer o stop = stop
Runs-outer o (again f g fs gs hs ys e r) =
    again o o (f ∷ fs) (g ∷ gs) _ ys (rw (e)) (Runs-outer o r)
Runs-outer o (yields f g fs gs hs y ys e q r) =
    yields o o (f ∷ fs) (g ∷ gs) _ y ys (rw (e)) q (Runs-outer o r)

-- A directory that is entered, walked and left again.
module _ (f : Frame) (path : List Bytes) (es : Entries) (items : Items) (ys : List (List Bytes))
    (c : Option Entry) where
  pub run_directory :
      Runs
        (open_frame path es items ∷ [])
        ys
        (record (open_frame path no_more items) { current = c } ∷ [])
      → Runs (f ∷ open_frame path es items ∷ []) ys (f ∷ [])
  unfolding reenter run_frame
  run_directory r =
      subst (λ zs. Runs (f ∷ open_frame path es items ∷ []) zs (f ∷ [])) (append-nil ys)
        (Runs-trans (Runs-outer f r) (again f f _ [] (f ∷ []) [] refl stop))

-- Globs with a pattern and without a `**` before another `**`.
abbrev pub Walkable : Items → Type 0
Walkable [] = ⊥
Walkable (none ∷ []) = Unit
Walkable (none ∷ none ∷ rest) = ⊥
Walkable (none ∷ some p ∷ rest) = Walkable (some p ∷ rest)
Walkable (some p ∷ []) = Unit
Walkable (some p ∷ i ∷ rest) = Walkable (i ∷ rest)

abbrev pub at : List Bytes → Items → Label → Option Entry → Entries → Frame
at path items l c es = record {
  root = path;
  dir_iter = es;
  pattern = items;
  label = l;
  current = c;
}

-- The state of a directory yields what `scan` says and has no entry left.
abbrev pub Walked : List Bytes → Items → Entries → Type 0
Walked path items es =
    (c : Option Entry)
    → (d : Option Entry) × Runs (at path items at_start c es ∷ []) (scan path items es)
        (at path items at_start d no_more ∷ [])
