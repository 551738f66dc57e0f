-- ===== src/Usage.antt =====
-- src/bpt/usage_reqs.cpp and usage_reqs.hpp, with the types of src/libman/usage.hpp and library.hpp:
-- the map from a library's usage to its requirements, and the paths that a user of it needs.
pub mod Map
pub mod Cycle
pub mod Paths
pub mod Reach
mod Tests
use bpt.Prelude.{
  ℕ, Bool, true, false, Option, none, some, List, [], ◌∷◌, ltb, if◌then◌else◌, ◌&&◌, ◌==◌, Bytes,
  bytes_eq, ◌≡◌, ◌↔◌, bytes_eq_iff, arith, refl, ◌++◌,
}

pub record Usage : Type 0 where
  pub namespace_ : Bytes
  pub name : Bytes

pub usage_eq : Usage → Usage → Bool
usage_eq a b = bytes_eq a.namespace_ b.namespace_ && bytes_eq a.name b.name

-- The fields of lm::library that usage requirements read.
pub record Library : Type 0 where
  pub name : Bytes
  pub linkable_path : Option Bytes
  pub include_paths : List Bytes
  pub uses : List Usage
  pub links : List Usage

-- lm::library{}
abbrev pub blank_library : Library
blank_library = record {
  name = [];
  linkable_path = none;
  include_paths = [];
  uses = [];
  links = [];
}

-- The order of std::string, and the defaulted operator<=> of lm::usage.
pub bytes_lt : Bytes → Bytes → Bool
bytes_lt [] [] = false
bytes_lt [] (b ∷ t) = true
bytes_lt (a ∷ s) [] = false
bytes_lt (a ∷ s) (b ∷ t) =
    let rest = bytes_lt s t in if ltb a b then true else if ltb b a then false else rest

pub usage_lt : Usage → Usage → Bool
unfolding bytes_lt
usage_lt a b =
    if bytes_lt a.namespace_ b.namespace_
    then true
    else if bytes_lt b.namespace_ a.namespace_
    then false
    else bytes_lt a.name b.name

-- std::map<lm::usage, lm::library>: the entries in the order of their keys.
abbrev pub Reqs : Type 0
Reqs = List (Usage × Library)

unfoldable pub get : Reqs → Usage → Option Library
unfolding usage_eq
get [] key = none
get ((k, lib) ∷ reqs) key = if usage_eq k key then some lib else get reqs key

-- What a query returns: a value, the exception `e_nonesuch_library`, or nothing at all, where its
-- recursion does not end within the fuel.
pub data Query {ℓ} (A : Type ℓ) : Type ℓ where
  ok : A → Query A
  nonesuch : Usage → Query A
  diverges : Query A

-- std::map::try_emplace puts a new entry at its place in the order, and keeps an old one.
pub place : Usage → Library → Reqs → Reqs
unfolding usage_lt
place key lib [] = (key, lib) ∷ []
place key lib ((k, l) ∷ reqs) =
    if usage_lt key k then (key, lib) ∷ (k, l) ∷ reqs else (k, l) ∷ place key lib reqs

-- `add` with a library. `none` is the exception `e_dup_library_id`.
unfoldable pub add : Reqs → Usage → Library → Option Reqs
unfolding place get
add reqs ident lib = elim (get reqs ident) [ some _ ↦ none | none ↦ some (place ident lib reqs) ]

-- One query after another; the first exception is the result.
abbrev pub both : Query (List Bytes) → Query (List Bytes) → Query (List Bytes)
both (ok ps) (ok qs) = ok (ps ++ qs)
both (ok ps) (nonesuch x) = nonesuch x
both (ok ps) diverges = diverges
both (nonesuch x) q = nonesuch x
both diverges q = diverges

-- The results of the queries that `each` makes for the items, one after the other.
unfoldable pub concat_each : (Usage → Query (List Bytes)) → List Usage → Query (List Bytes)
concat_each each [] = ok []
concat_each each (u ∷ us) = both (each u) (concat_each each us)

abbrev pub linkable : Library → List Bytes
linkable lib = elim lib.linkable_path [ some p ↦ p ∷ [] | none ↦ [] ]

-- The recursion of `link_paths` goes through the uses and the links of each library.
unfoldable pub link_paths : ℕ → Reqs → Usage → Query (List Bytes)
unfolding get concat_each
link_paths ℕ.zero reqs key = diverges
link_paths (ℕ.suc fuel) reqs key = elim (get reqs key) [
  | none ↦ nonesuch key
  | some lib ↦ both (ok (linkable lib)) (
      both (concat_each (link_paths fuel reqs) lib.uses)
        (concat_each (link_paths fuel reqs) lib.links))
]

unfoldable pub include_paths : ℕ → Reqs → Usage → Query (List Bytes)
unfolding get concat_each
include_paths ℕ.zero reqs usage = diverges
include_paths (ℕ.suc fuel) reqs usage = elim (get reqs usage) [
  | none ↦ nonesuch usage
  | some lib ↦ both (ok lib.include_paths) (concat_each (include_paths fuel reqs) lib.uses)
]

pub usage_eq_iff : (a b : Usage) → (usage_eq a b ≡ true) ↔ (a ≡ b)
unfolding usage_eq
usage_eq_iff a b =
    ground (arith, bytes_eq_iff a.namespace_ b.namespace_, bytes_eq_iff a.name b.name)
