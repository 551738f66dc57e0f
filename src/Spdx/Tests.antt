-- ===== src/Spdx/Tests.antt =====
-- Runs of the parser of SPDX expressions, and the theorems at them.
use bpt.Prelude.{[], ◌∷◌, ◌≡◌, refl, codes}
use bpt.Spdx.Print.{IsLicense}
use bpt.Spdx.Round.{parse-to_string}
use bpt.Spdx.Ends.{Ends, parse-Ends}
use bpt.Spdx.{
  find_with_id, Info, Tables, ok, err, trailing_content, just_license_id, license_id_plus, simple,
  and_license, paren_grouped, parse, Expr, to_string,
}

abbrev tables : Tables
tables = record {
  licenses =
      record { id = codes "BSL-1.0"; name = [] } ∷ record { id = codes "MPL-1.0"; name = [] } ∷ [];
  exceptions = record { id = codes "LLVM-exception"; name = [] } ∷ [];
}

abbrev bsl : Info
bsl = record { id = codes "BSL-1.0"; name = [] }

abbrev mpl : Info
mpl = record { id = codes "MPL-1.0"; name = [] }

parses :
    parse tables (codes "(BSL-1.0+ AND MPL-1.0)")
    ≡ ok (paren_grouped (and_license (simple (license_id_plus bsl)) (simple (just_license_id mpl))))
unfolding parse find_with_id
parses = refl

-- The blank before the exception is counted as a part of its identifier.
with_fails : parse tables (codes "BSL-1.0 WITH LLVM-exception") ≡ err trailing_content
unfolding parse find_with_id
with_fails = refl

-- Nothing may follow a group.
group_first : parse tables (codes "(BSL-1.0) AND MPL-1.0") ≡ err trailing_content
unfolding parse find_with_id
group_first = refl

-- A blank before the plus is removed in its place.
spaced_plus : parse tables (codes "BSL-1.0 +") ≡ err trailing_content
unfolding parse find_with_id
spaced_plus = refl

parse-Ends_example : Ends (parse tables (codes "BSL-1.0 OR (MPL-1.0"))
parse-Ends_example = parse-Ends tables (codes "BSL-1.0 OR (MPL-1.0")

abbrev printable : Expr
printable =
    paren_grouped (and_license (simple (license_id_plus bsl)) (simple (just_license_id mpl)))

bsl-IsLicense : IsLicense tables bsl
unfolding find_with_id
bsl-IsLicense = record {
  known = refl;
  nonempty = λ e. cc;
  word = (refl, (refl, (refl, (refl, (refl, (refl, (refl, tt)))))));
}

mpl-IsLicense : IsLicense tables mpl
unfolding find_with_id
mpl-IsLicense = record {
  known = refl;
  nonempty = λ e. cc;
  word = (refl, (refl, (refl, (refl, (refl, (refl, (refl, tt)))))));
}

parse-to_string_example : parse tables (to_string printable) ≡ ok printable
parse-to_string_example = parse-to_string tables printable (bsl-IsLicense, mpl-IsLicense)
