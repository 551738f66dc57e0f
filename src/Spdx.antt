-- ===== src/Spdx.antt =====
-- src/bpt/project/spdx.cpp: SPDX license expressions, their parser and their printer. The tables
-- of spdx.inl and spdx-exc.inl are arguments.
pub mod Ends
pub mod Solid
pub mod Print
pub mod Round
mod Search
mod Tests
use bpt.Prelude.{
  ℕ, zero, suc, Bool, true, false, not, ◌&&◌, ◌||◌, Option, none, some, List, [], ◌∷◌, ◌++◌, ltb,
  leb, ◌==◌, if◌then◌else◌, length, take, drop, ◌/◌, Bytes, bytes_eq, codes,
}
use bpt.Text.{trim_view}

-- `spdx_license_info` and `spdx_exception_info`.
pub record Info : Type 0 where
  pub id : Bytes
  pub name : Bytes

pub record Tables : Type 0 where
  pub licenses : List Info
  pub exceptions : List Info

abbrev pub is_idstring_char : ℕ → Bool
is_idstring_char c =
    leb b'a' c && leb c b'z'
    || leb b'A' c && leb c b'Z'
    || leb b'0' c && leb c b'9'
    || c == b'-'
    || c == b'.'

abbrev pub id_prefix : Bytes → Bytes
id_prefix [] = []
id_prefix (c ∷ s) = let rest = id_prefix s in if is_idstring_char c then c ∷ rest else []

abbrev pub first_token : Bytes → Bytes
first_token [] = []
first_token (c ∷ s) = if c == b'(' || c == b')' || c == b'+' then c ∷ [] else id_prefix (c ∷ s)

unfoldable pub next_token : Bytes → Bytes
unfolding trim_view
next_token sv = first_token (trim_view sv)

-- The order of std::string.
abbrev pub bytes_lt : Bytes → Bytes → Bool
bytes_lt [] [] = false
bytes_lt [] (d ∷ t) = true
bytes_lt (c ∷ s) [] = false
bytes_lt (c ∷ s) (d ∷ t) = ltb c d || c == d && bytes_lt s t

-- The entry in the middle of a range is not less: it is the result, unless one before it is.
abbrev pub halve : ℕ → List Info → Option Info → Bytes → Option Info
halve zero range found id = found
halve (suc rounds) range found id = elim (drop (length range / 2) range) [
  | [] ↦ found
  | middle ∷ upper ↦ elim (bytes_lt middle.id id) [
    | true ↦ halve rounds upper found id
    | false ↦ halve rounds (take (length range / 2) range) (some middle) id
  ]
]

-- std::ranges::lower_bound. Each round takes at least the entry in the middle from the range, so
-- that no more of them are needed than there are entries.
abbrev pub lower_bound : List Info → Bytes → Option Info
lower_bound table id = halve (length table) table none id

unfoldable pub find_with_id : List Info → Bytes → Option Info
find_with_id table id = elim (lower_bound table id) [
  | none ↦ none
  | some i ↦ if bytes_eq i.id id then some i else none
]

pub data Simple : Type 0 where
  just_license_id license_id_plus : Info → Simple

pub data Expr : Type 0 where
  simple : Simple → Expr
  and_license or_license : Expr → Expr → Expr
  paren_grouped : Expr → Expr
  with_exception : Simple → Info → Expr

-- The exceptions, by their messages; `out_of_fuel` belongs to the model only.
pub data Error : Type 0 where
  no_such_license no_such_exception missing_parenthesis trailing_content out_of_fuel : Error

pub data Result {ℓ} (A : Type ℓ) : Type ℓ where
  ok : A → Result A
  err : Error → Result A

infixl 5 ◌>>=◌
abbrev pub ◌>>=◌ {ℓ κ} : {A : Type ℓ} {B : Type κ} → Result A → (A → Result B) → Result B
ok a >>= f = f a
err e >>= f = err e

-- The rest behind a license; the prefix is removed from the text as it stands, blanks included.
abbrev pub simple_rest : Info → Bytes → Simple × Bytes
simple_rest license sv =
    if bytes_eq (next_token sv) (codes "+")
    then (license_id_plus license, drop 1 sv)
    else (just_license_id license, sv)

-- `simple_expression::parse`, of a text that `compound_expression::parse` has trimmed.
unfoldable pub parse_simple : Tables → Bytes → Result (Simple × Bytes)
unfolding next_token trim_view
parse_simple tables sv0 =
    let sv = trim_view sv0 in
    let tok = next_token sv in
    elim (find_with_id tables.licenses tok) [
      | none ↦ err no_such_license
      | some license ↦ ok (simple_rest license (drop (length tok) sv))
    ]

abbrev pub close_paren : Result (Expr × Bytes) → Result (Expr × Bytes)
close_paren (err e) = err e
close_paren (ok (inner, rest)) =
    let sv = trim_view rest in
    if bytes_eq (next_token sv) (codes ")")
    then ok (paren_grouped inner, drop 1 sv)
    else err missing_parenthesis

abbrev pub parse_exception : Tables → Simple → Bytes → Result (Expr × Bytes)
parse_exception tables license sv =
    let exc_id = next_token sv in
    elim (find_with_id tables.exceptions exc_id) [
      | none ↦ err no_such_exception
      | some exc ↦ ok (with_exception license exc, drop (length exc_id) sv)
    ]

-- What follows a simple expression; `parse` is the recursion.
abbrev pub after_simple :
    Tables → (Bytes → Result (Expr × Bytes)) → Simple × Bytes → Result (Expr × Bytes)
after_simple tables parse (license, rest) =
    let sv = trim_view rest in
    let next = next_token sv in
    if bytes_eq next (codes "OR")
    then (parse (drop 2 sv) >>= λ r. ok (or_license (simple license) r.0, r.1))
    else if bytes_eq next (codes "AND")
    then (parse (drop 3 sv) >>= λ r. ok (and_license (simple license) r.0, r.1))
    else if bytes_eq next (codes "WITH")
    then parse_exception tables license (drop 4 sv)
    else ok (simple license, sv)

-- `compound_expression::parse`.
unfoldable pub parse_compound : ℕ → Tables → Bytes → Result (Expr × Bytes)
unfolding parse_simple next_token trim_view
parse_compound zero tables sv0 = err out_of_fuel
parse_compound (suc fuel) tables sv0 =
    let sv = trim_view sv0 in
    let inner = close_paren (parse_compound fuel tables (drop 1 sv)) in
    if bytes_eq (next_token sv) (codes "(")
    then inner
    else parse_simple tables sv >>= after_simple tables (parse_compound fuel tables)

abbrev pub no_trailing : Expr × Bytes → Result Expr
no_trailing (e, rest) = elim (trim_view rest) [ [] ↦ ok e | c ∷ s ↦ err trailing_content ]

-- `spdx_license_expression::parse`.
unfoldable pub parse : Tables → Bytes → Result Expr
unfolding parse_compound trim_view
parse tables sv = parse_compound (suc (length sv)) tables sv >>= no_trailing

abbrev pub simple_to_string : Simple → Bytes
simple_to_string (just_license_id l) = l.id
simple_to_string (license_id_plus l) = l.id ++ codes "+"

-- `license_to_string_fn`.
unfoldable pub to_string : Expr → Bytes
to_string (simple s) = simple_to_string s
to_string (and_license l r) = to_string l ++ (codes " AND " ++ to_string r)
to_string (or_license l r) = to_string l ++ (codes " OR " ++ to_string r)
to_string (paren_grouped e) = b'(' ∷ (to_string e ++ codes ")")
to_string (with_exception s e) = simple_to_string s ++ (codes " WITH " ++ e.id)
