-- ===== src/Deps/Tests.antt =====
use bpt.Prelude.{none, some, [], ◌∷◌, ◌++◌, ◌≡◌, refl, codes}
use bpt.Text.{split, starts_with, ends_with, trim_view}
use bpt.Shlex.{split_shell_string}
use bpt.Database.Samples.{sample_fs}
use bpt.Deps.{no_deps, newline, parse_mkfile_deps_str, parse_msvc_output_for_deps}

parses_escaped_newline :
    parse_mkfile_deps_str (codes "a.o: a.c \\" ++ newline ∷ codes " a.h")
    ≡ record no_deps { output = codes "a.o"; inputs = codes "a.c" ∷ codes "a.h" ∷ [] }
unfolding parse_mkfile_deps_str split_shell_string ends_with
parses_escaped_newline = refl

cleans_msvc_output :
    parse_msvc_output_for_deps
      (sample_fs (λ p. none))
      (codes "a.c" ++ newline ∷ codes "Note:  b.h")
      (codes "Note:")
    ≡ some (record no_deps { inputs = codes "b.h" ∷ [] }, codes "a.c")
unfolding parse_msvc_output_for_deps split starts_with trim_view
cleans_msvc_output = refl
