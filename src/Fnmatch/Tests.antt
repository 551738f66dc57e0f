-- ===== src/Fnmatch/Tests.antt =====
-- Runs of the pattern compiler and the matcher, and the theorems at them.
use bpt.Prelude.{◌≡◌, ◌↔◌, refl, true, [], ◌∷◌, codes}
use bpt.Fnmatch.{
  star, any_char, oneof, lit, Pattern, ok, err, unterminated_group, invalid_escape, match, compile,
}
use bpt.Fnmatch.Match.{Matches, match_iff}
use bpt.Fnmatch.Compile.{Ends, compile-Ends}
use bpt.Fnmatch.Spelling.{spell, compile-spell}

abbrev test_files : Pattern
test_files = star ∷ lit (codes ".t[") ∷ any_char ∷ oneof (codes "]x") ∷ []

compiles : compile (codes "*.t\\[?[\\]x]") ≡ ok test_files
unfolding compile
compiles = refl

open_group : compile (codes "a[bc") ≡ err unterminated_group
unfolding compile
open_group = refl

lone_backslash : compile (codes "a\\") ≡ err invalid_escape
unfolding compile
lone_backslash = refl

backtracks : match test_files (codes "a.t.t[ax") ≡ true
unfolding match
backtracks = refl

match_iff_example :
    (match test_files (codes "a.t.t[ax") ≡ true) ↔ Matches test_files (codes "a.t.t[ax")
match_iff_example = match_iff test_files (codes "a.t.t[ax")

compile-Ends_example : Ends (compile (codes "a[bc"))
compile-Ends_example = compile-Ends (codes "a[bc")

compile-spell_example : compile (spell test_files) ≡ ok test_files
compile-spell_example = compile-spell test_files tt
