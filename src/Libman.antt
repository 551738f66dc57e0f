-- ===== src/Libman.antt =====
-- src/libman/parse.cpp and parse.hpp: lists of keys and values, one on each line of a file.
-- Messages of exceptions are left out.
pub mod Print
pub mod Read
mod Tests
use bpt.Prelude.{
  ℕ, zero, suc, Bool, true, false, Option, none, some, List, [], ◌∷◌, ◌++◌, ◌==◌, if◌then◌else◌,
  length, take, drop, Bytes, bytes_eq, codes,
}
use bpt.Text.{find, trim_view}

-- `lm::pair`.
pub record Pair : Type 0 where
  pub key : Bytes
  pub value : Bytes

-- The std::runtime_error for an invalid line.
pub data Result {ℓ} (A : Type ℓ) : Type ℓ where
  ok : A → Result A
  invalid_line : Result A

infixl 5 ◌>>=◌
abbrev pub ◌>>=◌ {ℓ κ} : {A : Type ℓ} {B : Type κ} → Result A → (A → Result B) → Result B
ok a >>= f = f a
invalid_line >>= f = invalid_line

-- The `while (true)` of `parse_line`: what stands before `iter`, and what begins there. When it
-- ends `iter` stands behind the colon, which is not part of the first text.
pub seek_value : Bytes → Bytes → Option (Bytes × Bytes)
seek_value before [] = none
seek_value before (c ∷ []) = if c == b':' then some (before, []) else none
seek_value before (c ∷ d ∷ s) =
    let regular = seek_value (before ++ c ∷ d ∷ []) s in
    let next = seek_value (before ++ c ∷ []) (d ∷ s) in
    if c == b':' then if d == b' ' then some (before, d ∷ s) else regular else next

abbrev pub is_comment : Bytes → Bool
is_comment [] = true
is_comment (c ∷ line) = c == b'#'

abbrev pub add_pair : List Pair → Option (Bytes × Bytes) → Result (List Pair)
add_pair pairs none = invalid_line
add_pair pairs (some (k, v)) =
    ok (pairs ++ (record { key = trim_view k; value = trim_view v }) ∷ [])

unfoldable pub parse_line : List Pair → Bytes → Result (List Pair)
unfolding seek_value trim_view
parse_line pairs whole_line =
    let line = trim_view whole_line in
    if is_comment line then ok pairs else add_pair pairs (seek_value [] line)

-- The text after the last newline.
abbrev pub last_line : List Pair → Bytes → Result (List Pair)
last_line pairs [] = ok pairs
last_line pairs (c ∷ line) = parse_line pairs (c ∷ line)

-- The loop of `parse_string`; `line` is the text from `line_begin` to `iter`.
pub parse_from : List Pair → Bytes → Bytes → Result (List Pair)
unfolding parse_line
parse_from pairs line [] = last_line pairs line
parse_from pairs line (c ∷ s) =
    let same = parse_from pairs (line ++ c ∷ []) s in
    let next = parse_line pairs line >>= λ more. parse_from more [] s in
    if c == 10 then next else same

unfoldable pub parse_string : Bytes → Result (List Pair)
unfolding parse_from
parse_string s = parse_from [] [] s

-- What `write_pairs` writes.
unfoldable pub write_pairs : List Pair → Bytes
write_pairs [] = []
write_pairs (p ∷ pairs) = p.key ++ (codes ": " ++ (p.value ++ 10 ∷ write_pairs pairs))

-- pair_list::find and pair_list::all_of.
unfoldable pub find_key : List Pair → Bytes → Option Pair
find_key [] k = none
find_key (p ∷ pairs) k = let rest = find_key pairs k in if bytes_eq p.key k then some p else rest

unfoldable pub all_of : List Pair → Bytes → List Pair
all_of [] k = []
all_of (p ∷ pairs) k = let rest = all_of pairs k in if bytes_eq p.key k then p ∷ rest else rest
