-- ===== src/Glob/Tests.antt =====
-- Runs of globs on a small tree, and the theorems at them.
use bpt.Prelude.{true, false, none, some, List, [], ◌∷◌, ◌++◌, ◌≡◌, ◌↔◌, refl, map, Bytes, codes}
use bpt.Fnmatch.{star, lit, unterminated_group}
use bpt.Glob.{
  Items, Entries, file, directory, no_more, entry, thrown, compiled, failed, bad_pattern,
  empty_glob, open_frame, compile_glob_expr, check_matches, increment,
}
use bpt.Glob.Compile.{GlobEnds, compile_glob_expr-GlobEnds}
use bpt.Glob.Matching.{GlobMatches, check_matches_iff}
use bpt.Glob.Walk.{scan}
use bpt.Glob.Walk.Total.{Iterates, iterate_scan}
use bpt.Glob.Agree.{paths, keep, iterate_matches}

abbrev exactly : List Bytes → Items
exactly [] = []
exactly (s ∷ more) = some (lit s ∷ []) ∷ exactly more

abbrev cpp_files : Items
cpp_files = none ∷ some (star ∷ lit (codes ".cpp") ∷ []) ∷ []

abbrev below_src : Items
below_src = some (lit (codes "src") ∷ []) ∷ none ∷ []

-- src/a.cpp, src/b/c.h, src/b/d.cpp and README
abbrev tree : Entries
tree =
    entry
      (directory (codes "src") (
        entry (file (codes "a.cpp")) (
          entry
            (directory (codes "b")
              (entry (file (codes "c.h")) (entry (file (codes "d.cpp")) no_more)))
            no_more)))
      (entry (file (codes "README")) no_more)

compiles : compile_glob_expr (codes "src/**") ≡ compiled below_src
unfolding compile_glob_expr
compiles = refl

empty_text : compile_glob_expr (codes "") ≡ failed empty_glob
unfolding compile_glob_expr
empty_text = refl

open_group : compile_glob_expr (codes "a/[b/c") ≡ failed (bad_pattern unterminated_group)
unfolding compile_glob_expr
open_group = refl

finds_sources :
    scan [] cpp_files tree
    ≡ (codes "src" ∷ codes "a.cpp" ∷ []) ∷ (codes "src" ∷ codes "b" ∷ codes "d.cpp" ∷ []) ∷ []
unfolding scan
finds_sources = refl

-- A file that matches the part behind the `**` is yielded although a part is left.
yields_too_early :
    scan [] (none ∷ exactly (codes "src" ∷ codes "x" ∷ [])) (entry (file (codes "src")) no_more)
    ≡ (codes "src" ∷ []) ∷ []
unfolding scan
yields_too_early = refl

no_match : check_matches (none ∷ exactly (codes "src" ∷ codes "x" ∷ [])) (codes "src" ∷ []) ≡ false
unfolding check_matches
no_match = refl

double_star : (increment 3 (open_frame [] tree (none ∷ none ∷ []) ∷ [])).0 ≡ thrown
unfolding increment
double_star = refl

check_matches_iff_example :
    (check_matches cpp_files (codes "src" ∷ codes "d.cpp" ∷ []) ≡ true)
    ↔ GlobMatches cpp_files (codes "src" ∷ codes "d.cpp" ∷ [])
check_matches_iff_example = check_matches_iff cpp_files (codes "src" ∷ codes "d.cpp" ∷ [])

compile_glob_expr-GlobEnds_example : GlobEnds (codes "src/**") (compile_glob_expr (codes "src/**"))
compile_glob_expr-GlobEnds_example = compile_glob_expr-GlobEnds (codes "src/**")

iterate_scan_example : Iterates (open_frame [] tree cpp_files ∷ []) (scan [] cpp_files tree)
iterate_scan_example = iterate_scan [] tree cpp_files tt

iterate_matches_example :
    Iterates
      (open_frame [] tree below_src ∷ [])
      (map (λ r. [] ++ r) (keep (check_matches below_src) (paths tree)))
iterate_matches_example = iterate_matches [] tree below_src tt
