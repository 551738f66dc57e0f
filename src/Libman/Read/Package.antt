-- ===== src/Libman/Read/Package.antt =====
-- src/libman/package.cpp: the fields of a package file. Its library files are not opened here.
use mathlib.Core.Option
use bpt.Prelude.{
  false, Option, none, some, List, [], ◌∷◌, ◌++◌, ◌≡◌, inl, inr, refl, sym, ap, ◌∙◌, arith, Bytes,
  Bool-cases, append_assoc, append-nil, bytes_eq, bytes_eq_iff, codes, map, ◌>>=◌,
}
use bpt.Libman.{Pair, all_of}
use bpt.Libman.Read.{
  Reader, read_required, read_check_eq, read_accumulate, Outcome, ReadError, ok, throws, read_loop,
  read, finish, validate, validated,
}
use bpt.Libman.Read.Apart.{success, read_alone, passed, accepted, read_loop_apart}

-- The fields of lm::package that its own file fills; `libraries` are the paths.
pub record Package : Type 0 where
  pub name : Bytes
  pub namespace_ : Bytes
  pub requires_ : List Bytes
  pub libraries : List Bytes

abbrev pub package_readers : List Reader
package_readers =
    read_required (codes "Type") none
    ∷ read_check_eq (codes "Type") (codes "Package")
    ∷ read_required (codes "Name") none
    ∷ read_required (codes "Namespace") none
    ∷ read_accumulate (codes "Requires") []
    ∷ read_accumulate (codes "Library") []
    ∷ []

-- The references that the readers have filled.
abbrev pub filled : List Reader → Option Package
filled
      (t
        ∷ c
        ∷ read_required a (some name)
        ∷ read_required b (some ns)
        ∷ read_accumulate q reqs
        ∷ read_accumulate l libs
        ∷ []) =
    some (record { name = name; namespace_ = ns; requires_ = reqs; libraries = libs })
filled rs = none

-- The `read` of package::from_file.
unfoldable pub read_package : List Pair → Option Package
unfolding read
read_package pairs = success (read pairs package_readers) >>= λ r. filled r.0

-- The value of a key that stands once.
abbrev pub once : List Pair → Option Bytes
once [] = none
once (p ∷ []) = some p.value
once (p ∷ q ∷ ps) = none

abbrev pub values : List Pair → Bytes → List Bytes
values pairs k = map (λ p. p.value) (all_of pairs k)

abbrev required_state : Bytes → List Pair → Option Reader
required_state k [] = some (read_required k none)
required_state k (p ∷ []) = some (read_required k (some p.value))
required_state k (p ∷ q ∷ ps) = none

abbrev filled_state : Bytes → Bytes → List Pair → Option Reader
filled_state k v [] = some (read_required k (some v))
filled_state k v (p ∷ ps) = none

read_alone-filled :
    (k v : Bytes) (pairs : List Pair)
    → read_alone (read_required k (some v)) pairs ≡ filled_state k v (all_of pairs k)
unfolding all_of
read_alone-filled k v [] = refl
read_alone-filled k v (p ∷ pairs) = ground (arith, read_alone-filled k v pairs)

required_cons :
    (k : Bytes) (p : Pair) (ps : List Pair) → filled_state k p.value ps ≡ required_state k (p ∷ ps)
required_cons k p [] = refl
required_cons k p (q ∷ ps) = refl

read_alone-required :
    (k : Bytes) (pairs : List Pair)
    → read_alone (read_required k none) pairs ≡ required_state k (all_of pairs k)
unfolding all_of
read_alone-required k [] = refl
read_alone-required k (p ∷ pairs) = elim (Bool-cases (bytes_eq p.key k)) [
  | inl mine ↦ rw (mine) (read_alone-filled k p.value pairs ∙ required_cons k p (all_of pairs k))
  | inr other ↦ rw (other) (read_alone-required k pairs)
]

read_alone-accumulate :
    (k : Bytes) (items : List Bytes) (pairs : List Pair)
    → read_alone (read_accumulate k items) pairs
      ≡ some (read_accumulate k (items ++ values pairs k))
unfolding all_of
read_alone-accumulate k items [] = ap (λ l. some (read_accumulate k l)) (sym (append-nil items))
read_alone-accumulate k items (p ∷ pairs) = elim (Bool-cases (bytes_eq p.key k)) [
  | inl mine ↦ rw (
    mine,
    read_alone-accumulate k (items ++ p.value ∷ []) pairs,
    append_assoc items (p.value ∷ []) (values pairs k),
  )
  | inr other ↦ rw (other, read_alone-accumulate k items pairs)
]

read_alone-check :
    (k e : Bytes) (pairs : List Pair)
    → all_of pairs k ≡ []
    → read_alone (read_check_eq k e) pairs ≡ some (read_check_eq k e)
unfolding all_of
read_alone-check k e [] h = refl
read_alone-check k e (p ∷ pairs) h = ground (arith, read_alone-check k e pairs)

all_of-passed :
    (k j : Bytes) (pairs : List Pair)
    → bytes_eq k j ≡ false
    → all_of (passed (λ x. bytes_eq x k) pairs) j ≡ all_of pairs j
unfolding all_of
all_of-passed k j [] h = refl
all_of-passed k j (p ∷ pairs) h = elim (Bool-cases (bytes_eq p.key k)) [
  | inl mine ↦ rw (mine, (bytes_eq_iff p.key k).0 mine, h, all_of-passed k j pairs h)
  | inr other ↦ ground (arith, all_of-passed k j pairs h)
]

all_of-passed_same :
    (k : Bytes) (pairs : List Pair) → all_of (passed (λ x. bytes_eq x k) pairs) k ≡ []
unfolding all_of
all_of-passed_same k [] = refl
all_of-passed_same k (p ∷ pairs) = ground (arith, all_of-passed_same k pairs)

abbrev checked : List Reader → Option Package
checked rs = elim (validate rs) [ none ↦ filled rs | some e ↦ none ]

validated_checked :
    (r : List Reader × List Pair) (v : Option ReadError)
    → (success (validated r v) >>= λ x. filled x.0) ≡ elim v [ none ↦ filled r.0 | some e ↦ none ]
validated_checked r none = refl
validated_checked r (some e) = refl

finish-checked :
    (o : Outcome (List Reader × List Pair))
    → (success (finish o) >>= λ r. filled r.0) ≡ (success o >>= λ r. checked r.0)
finish-checked (throws e) = refl
finish-checked (ok r) = validated_checked r (validate r.0)

-- The states of the readers, by the pairs with the keys Type, Name and Namespace.
abbrev states : List Pair → List Pair → List Pair → List Bytes → List Bytes → Option (List Reader)
states t n s reqs libs = required_state (codes "Type") t >>= λ a.
    Option.map (λ rs. a ∷ rs)
      (Option.map (λ rs. read_check_eq (codes "Type") (codes "Package") ∷ rs)
        (required_state (codes "Name") n >>= λ b.
          Option.map (λ rs. b ∷ rs)
            (required_state (codes "Namespace") s >>= λ c.
              Option.map (λ rs. c ∷ rs)
                (some (
                  read_accumulate (codes "Requires") reqs
                  ∷ read_accumulate (codes "Library") libs
                  ∷ [])))))

assemble :
    (t n s : List Pair) (reqs libs : List Bytes)
    → (states t n s reqs libs >>= checked) ≡ (
        once t >>= λ _. once n >>= λ name. once s >>= λ ns.
        some (record { name = name; namespace_ = ns; requires_ = reqs; libraries = libs }))
assemble t n s reqs libs = ground arith

abbrev with_bad : List Pair → List Reader → List Reader × List Pair
with_bad bad rs = (rs, bad)

map-checked :
    (bad : List Pair) (o : Option (List Reader))
    → (Option.map (with_bad bad) o >>= λ r. checked r.0) ≡ (o >>= checked)
map-checked bad (some rs) = refl
map-checked bad none = refl

module _ (pairs : List Pair) where
  abbrev left_1 : List Pair
  left_1 = passed (λ x. bytes_eq x (codes "Type")) pairs

  abbrev left_2 : List Pair
  left_2 = passed (λ x. bytes_eq x (codes "Type")) left_1

  abbrev left_3 : List Pair
  left_3 = passed (λ x. bytes_eq x (codes "Name")) left_2

  abbrev left_4 : List Pair
  left_4 = passed (λ x. bytes_eq x (codes "Namespace")) left_3

  abbrev left_5 : List Pair
  left_5 = passed (λ x. bytes_eq x (codes "Requires")) left_4

  left_2_key : (j : Bytes) → bytes_eq (codes "Type") j ≡ false → all_of left_2 j ≡ all_of pairs j
  left_2_key j h = all_of-passed (codes "Type") j left_1 h ∙ all_of-passed (codes "Type") j pairs h

  left_4_key :
      (j : Bytes)
      → bytes_eq (codes "Type") j ≡ false
      → bytes_eq (codes "Name") j ≡ false
      → bytes_eq (codes "Namespace") j ≡ false
      → all_of left_4 j ≡ all_of pairs j
  left_4_key j h k l =
      all_of-passed (codes "Namespace") j left_3 l
      ∙ all_of-passed (codes "Name") j left_2 k
      ∙ left_2_key j h

  -- Reading a package file ends well exactly when the keys Type, Name and Namespace stand once
  -- each, whatever the type is, and then gives their values and those of all keys Requires and
  -- Library in order.
  pub read_package_lem : read_package pairs ≡ (
      once (all_of pairs (codes "Type")) >>= λ _. once (all_of pairs (codes "Name")) >>= λ name.
      once (all_of pairs (codes "Namespace")) >>= λ ns. some (record {
        name = name;
        namespace_ = ns;
        requires_ = values pairs (codes "Requires");
        libraries = values pairs (codes "Library");
      }))
  unfolding read_package read
  read_package_lem =
      let types = all_of pairs (codes "Type") in
      let names = all_of pairs (codes "Name") in
      let spaces = all_of pairs (codes "Namespace") in
      let reqs = values pairs (codes "Requires") in
      let libs = values pairs (codes "Library") in
      rw
        (
          read_package,
          read,
          finish-checked (read_loop package_readers [] pairs),
          read_loop_apart package_readers [] pairs,
          read_alone-required (codes "Type") pairs,
          read_alone-check (codes "Type") (codes "Package") left_1
              (all_of-passed_same (codes "Type") pairs),
          read_alone-required (codes "Name") left_2,
          left_2_key (codes "Name") refl,
          read_alone-required (codes "Namespace") left_3,
          all_of-passed (codes "Name") (codes "Namespace") left_2 refl,
          left_2_key (codes "Namespace") refl,
          read_alone-accumulate (codes "Requires") [] left_4,
          left_4_key (codes "Requires") refl refl refl,
          read_alone-accumulate (codes "Library") [] left_5,
          all_of-passed (codes "Requires") (codes "Library") left_4 refl,
          left_4_key (codes "Library") refl refl refl,
        )
        (map-checked (accepted package_readers pairs) (states types names spaces reqs libs)
          ∙ assemble types names spaces reqs libs)
