-- ===== src/Glob.antt =====
-- src/bpt/util/glob.cpp: path globs such as `src/**/*.c++`, their match against a path, and the
-- coroutine that walks a directory tree. A directory is the list of its entries in the order in
-- which the file system hands them out, and does not change during a walk.
pub mod Compile
pub mod Matching
pub mod Walk
pub mod Agree
mod Tests
use bpt.Prelude.{
  ℕ, zero, suc, Bool, true, false, Option, none, some, List, [], ◌∷◌, ◌++◌, if◌then◌else◌, length,
  take, drop, Bytes, bytes_eq, codes,
}
use bpt.Text.{find}
use bpt.Fnmatch.{Pattern, match, Error, ok, err, compile}

-- `rglob_item`; `none` is `**`.
abbrev pub Item : Type 0
Item = Option Pattern

abbrev pub Items : Type 0
Items = List Item

-- What the source throws; `out_of_fuel` belongs to the model only.
pub data GlobError : Type 0 where
  bad_pattern : Error → GlobError
  empty_glob out_of_fuel : GlobError

pub data GlobResult : Type 0 where
  compiled : Items → GlobResult
  failed : GlobError → GlobResult

abbrev pub add_item : Item → GlobResult → GlobResult
add_item i (compiled items) = compiled (i ∷ items)
add_item i (failed e) = failed e

-- `acc.items.emplace_back()` for `**`, else the compiled part, before the rest.
abbrev pub add_part : Bytes → GlobResult → GlobResult
add_part part rest =
    if bytes_eq part (codes "**")
    then add_item none rest
    else elim (compile part) [ ok p ↦ add_item (some p) rest | err e ↦ failed (bad_pattern e) ]

-- The loop over the parts between slashes.
unfoldable pub compile_parts : ℕ → Bytes → GlobResult
unfolding compile
compile_parts fuel [] = compiled []
compile_parts zero (c ∷ s) = failed out_of_fuel
compile_parts (suc fuel) (c ∷ s) = elim (find (codes "/") (c ∷ s)) [
  | some n ↦ add_part (take n (c ∷ s)) (compile_parts fuel (drop 1 (drop n (c ∷ s))))
  | none ↦ add_part (c ∷ s) (compiled [])
]

abbrev pub not_empty : GlobResult → GlobResult
not_empty (compiled []) = failed empty_glob
not_empty r = r

unfoldable pub compile_glob_expr : Bytes → GlobResult
unfolding compile_parts
compile_glob_expr pattern = not_empty (compile_parts (length pattern) pattern)

-- The loop that peels off path elements.
abbrev pub any_suffix : (List Bytes → Bool) → List Bytes → Bool
any_suffix check [] = false
any_suffix check (e ∷ es) = elim (check (e ∷ es)) [ true ↦ true | false ↦ any_suffix check es ]

-- `check_matches`, over the items and the elements that are left.
unfoldable pub check_matches : Items → List Bytes → Bool
unfolding match
check_matches [] [] = true
check_matches [] (e ∷ es) = false
check_matches (i ∷ items) [] = false
check_matches (some p ∷ items) (e ∷ es) = if match p e then check_matches items es else false
check_matches (none ∷ []) (e ∷ es) = true
check_matches (none ∷ j ∷ items) (e ∷ es) = any_suffix (check_matches (j ∷ items)) (e ∷ es)

-- A directory tree.
mutual
  pub data Entry : Type 0 where
    file : Bytes → Entry
    directory : Bytes → Entries → Entry

  pub data Entries : Type 0 where
    no_more : Entries
    entry : Entry → Entries → Entries

abbrev pub filename : Entry → Bytes
filename (file n) = n
filename (directory n es) = n

-- `glob_coro_ret`; `thrown` is the std::bad_optional_access of `pattern.value()`.
pub data Ret : Type 0 where
  reenter_again yield_value done thrown : Ret

-- The points at which `reenter` goes on, in the order of the source; `at_start` is label 0.
pub data Label : Type 0 where
  at_start leaf_yielded match_entered match_yielded descended yielded entered : Label

-- `glob_iter_state` without `_next_state`. `current` is `none` before the first entry; `root` is
-- the path of the directory, below the one where the walk began.
pub record Frame : Type 0 where
  pub root : List Bytes
  pub dir_iter : Entries
  pub pattern : Items
  pub label : Label
  pub current : Option Entry

abbrev pub open_frame : List Bytes → Entries → Items → Frame
open_frame path es items = record {
  root = path;
  dir_iter = es;
  pattern = items;
  label = at_start;
  current = none;
}

-- What a call of `reenter` returns, the frame after it, and the frame that it opened.
pub record Action : Type 0 where
  pub ret : Ret
  pub frame : Frame
  pub opened : Option Frame

abbrev continue_ : Frame → Action
continue_ f = record { ret = reenter_again; frame = record f { label = at_start }; opened = none }

abbrev yield : Frame → Label → Action
yield f l = record { ret = yield_value; frame = record f { label = l }; opened = none }

abbrev enter : Frame → Label → Bytes → Entries → Items → Action
enter f l n es items = record {
  ret = reenter_again;
  frame = record f { label = l };
  opened = some (open_frame (f.root ++ n ∷ []) es items);
}

-- The last test of the `**` branch: directories are searched with the same pattern.
abbrev pub descend : Frame → Option Entry → Action
descend f (some (directory n es)) = enter f descended n es f.pattern
descend f (some (file n)) = continue_ f
descend f none = continue_ f

-- A `**` before another pattern: an entry that this one matches.
abbrev matched : Frame → Items → Entry → Action
matched f rest (directory n es) = enter f match_entered n es rest
matched f rest (file n) = yield f match_yielded

abbrev matched_plain : Frame → Items → Entry → Action
matched_plain f [] e = yield f yielded
matched_plain f (i ∷ rest) (directory n es) = enter f entered n es (i ∷ rest)
matched_plain f (i ∷ rest) (file n) = continue_ f

-- What is done with a new entry.
pub visit : Frame → Items → Entry → Action
unfolding match
visit f [] e = continue_ f
visit f (none ∷ []) e = yield f leaf_yielded
visit f (none ∷ none ∷ rest) e = record { ret = thrown; frame = f; opened = none }
visit f (none ∷ some p ∷ rest) e =
    if match p (filename e) then matched f (some p ∷ rest) e else descend f (some e)
visit f (some p ∷ rest) e = if match p (filename e) then matched_plain f rest e else continue_ f

abbrev take_next : Frame → Entries → Action
take_next f no_more = record { ret = done; frame = f; opened = none }
take_next f (entry e es) = visit (record f { dir_iter = es; current = some e }) f.pattern e

abbrev resume : Label → Frame → Action
resume at_start f = take_next f f.dir_iter
resume leaf_yielded f = descend f f.current
resume match_entered f = descend f f.current
resume match_yielded f = descend f f.current
resume descended f = continue_ f
resume yielded f = continue_ f
resume entered f = continue_ f

-- `reenter` of a state with no `_next_state`.
unfoldable pub run_frame : Frame → Action
unfolding visit
run_frame f = resume f.label f

abbrev opened_frames : Option Frame → List Frame
opened_frames none = []
opened_frames (some g) = g ∷ []

-- The states from the outermost one along `_next_state`; one that is done is reset.
abbrev after_inner : Frame → Ret × List Frame → Ret × List Frame
after_inner f (done, fs) = (reenter_again, f ∷ [])
after_inner f (reenter_again, fs) = (reenter_again, f ∷ fs)
after_inner f (yield_value, fs) = (yield_value, f ∷ fs)
after_inner f (thrown, fs) = (thrown, f ∷ fs)

unfoldable pub reenter : List Frame → Ret × List Frame
unfolding run_frame
reenter [] = (done, [])
reenter (f ∷ []) = let a = run_frame f in (a.ret, a.frame ∷ opened_frames a.opened)
reenter (f ∷ g ∷ fs) = after_inner f (reenter (g ∷ fs))

-- The path of the entry of the innermost state.
abbrev path_of : Frame → Option Entry → Option (List Bytes)
path_of f none = none
path_of f (some e) = some (f.root ++ filename e ∷ [])

abbrev pub get_entry : List Frame → Option (List Bytes)
get_entry [] = none
get_entry (f ∷ []) = path_of f f.current
get_entry (f ∷ g ∷ fs) = get_entry (g ∷ fs)

-- The loop of `increment`, with the states after it and `yield_value`, `done` or `thrown`.
unfoldable pub increment : ℕ → List Frame → Ret × List Frame
unfolding reenter
increment zero fs = (reenter_again, fs)
increment (suc fuel) fs =
    let again = increment fuel (reenter fs).1 in
    elim (reenter fs).0 [
      | reenter_again ↦ again
      | yield_value ↦ reenter fs
      | done ↦ reenter fs
      | thrown ↦ reenter fs
    ]
