-- ===== src/Text/Tests.antt =====
-- Runs of the string helpers, and the theorems at them.
use mathlib.Core.Option
use bpt.Prelude.{◌≡◌, refl, some, List, [], ◌∷◌, Bytes, codes}
use bpt.Text.{split, replace, joinstr, trim_view}
use bpt.Text.Split.{IsSplit, split_total, replace-eq-joinstr}

trims : trim_view (codes " \ta b\n ") ≡ codes "a b"
unfolding trim_view
trims = refl

split_runs : split (codes "a, b, ") (codes ", ") ≡ some (codes "a" ∷ codes "b" ∷ [] ∷ [])
unfolding split
split_runs = refl

split_total_example :
    (ps : List Bytes) × (split (codes "a, b, ") (codes ", ") ≡ some ps)
    × IsSplit 44 (codes " ") (codes "a, b, ") ps
split_total_example = split_total 44 (codes " ") (codes "a, b, ")

replace-eq-joinstr_example :
    replace (codes "a/b/c") (codes "/") (codes "::")
    ≡ Option.map (joinstr (codes "::")) (split (codes "a/b/c") (codes "/"))
replace-eq-joinstr_example = replace-eq-joinstr 47 [] (codes "a/b/c") (codes "::")
