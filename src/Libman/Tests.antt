-- ===== src/Libman/Tests.antt =====
-- Runs of the parser and the readers of key-value files, and the theorems at them.
use mathlib.Core.Option
use bpt.Prelude.{none, some, List, [], ◌∷◌, ◌++◌, ◌≡◌, refl, Bytes, codes, ◌>>=◌}
use bpt.Libman.{Pair, ok, invalid_line, parse_string, write_pairs, all_of}
use bpt.Libman.Print.{parse_string-write_pairs}
use bpt.Libman.Read.{read_opt, read_accumulate, read, read_loop}
use bpt.Libman.Read.Apart.{success, read_apart, accepted, read_loop_apart}
use bpt.Libman.Read.Package.{read_package, once, values, read_package_lem}

abbrev pair : Bytes → Bytes → Pair
pair k v = record { key = k; value = v }

abbrev a_package : List Pair
a_package =
    pair (codes "Type") (codes "Other")
    ∷ pair (codes "Name") (codes "a lib")
    ∷ pair (codes "Library") (codes "x.lml")
    ∷ pair (codes "Namespace") []
    ∷ pair (codes "Library") (codes "y.lml")
    ∷ []

parses :
    parse_string (codes "# c\n\n Name: a:b \nOpt:\nX: y")
    ≡ ok (
        pair (codes "Name") (codes "a:b")
        ∷ pair (codes "Opt") []
        ∷ pair (codes "X") (codes "y")
        ∷ [])
unfolding parse_string
parses = refl

-- A colon behind a colon is not looked at.
double_colon : parse_string (codes "a:: b") ≡ invalid_line
unfolding parse_string
double_colon = refl

-- `read_opt` takes a key that stands twice, and the pairs that were read are called bad.
twice :
    success (
      read
        (pair (codes "P") (codes "1") ∷ pair (codes "Q") [] ∷ pair (codes "P") (codes "2") ∷ [])
        (read_opt (codes "P") none ∷ []))
    ≡ some (
      read_opt (codes "P") (some (codes "2")) ∷ [],
      pair (codes "P") (codes "1") ∷ pair (codes "P") (codes "2") ∷ [],
    )
unfolding read
twice = refl

parse_string-write_pairs_example :
    parse_string (write_pairs (pair (codes "Name") (codes "a: b") ∷ []))
    ≡ ok (pair (codes "Name") (codes "a: b") ∷ [])
parse_string-write_pairs_example =
    parse_string-write_pairs (pair (codes "Name") (codes "a: b") ∷ []) (
      record {
        trimmed = ((refl, refl), (refl, refl));
        lines = ((refl, (refl, (refl, (refl, tt)))), (refl, (refl, (refl, (refl, tt)))));
        colon = (refl, (refl, (refl, (refl, tt))));
        comment = refl;
      },
      tt,
    )

read_loop_apart_example :
    success (
      read_loop
        (read_accumulate (codes "Library") [] ∷ read_opt (codes "Name") none ∷ [])
        []
        a_package)
    ≡ Option.map
        (λ rs'. (
          rs',
          []
              ++ accepted
                  (read_accumulate (codes "Library") [] ∷ read_opt (codes "Name") none ∷ [])
                  a_package,
        ))
        (read_apart
          (read_accumulate (codes "Library") [] ∷ read_opt (codes "Name") none ∷ [])
          a_package)
read_loop_apart_example =
    read_loop_apart (read_accumulate (codes "Library") [] ∷ read_opt (codes "Name") none ∷ []) []
      a_package

read_package_lem_example : read_package a_package ≡ (
    once (all_of a_package (codes "Type")) >>= λ _.
    once (all_of a_package (codes "Name")) >>= λ name.
    once (all_of a_package (codes "Namespace")) >>= λ ns. some (record {
      name = name;
      namespace_ = ns;
      requires_ = values a_package (codes "Requires");
      libraries = values a_package (codes "Library");
    }))
read_package_lem_example = read_package_lem a_package
