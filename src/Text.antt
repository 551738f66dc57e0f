-- ===== src/Text.antt =====
-- The string helpers of src/bpt/util/string.hpp, over texts as lists of bytes. A position is kept
-- as the suffix that begins there, and `none` as a result of a loop means that it does not end,
-- which `Text.Split` shows for no call with a separator that is not empty.
pub mod Find
pub mod Split
pub mod Trim
mod Tests
use mathlib.Core.List.{reverse}
use mathlib.Core.Option
use bpt.Prelude.{
  ℕ, zero, suc, ◌+◌, ◌-◌, Bool, true, false, not, ◌&&◌, ◌||◌, Option, none, some, List, [], ◌∷◌,
  ◌++◌, leb, ◌==◌, if◌then◌else◌, length, take, drop, Bytes, is_prefix,
}

-- std::isspace in the "C" locale.
abbrev pub is_space : ℕ → Bool
is_space c = c == 32 || leb 9 c && leb c 13

abbrev pub skip_space : Bytes → Bytes
skip_space [] = []
skip_space (c ∷ s) = if is_space c then skip_space s else c ∷ s

unfoldable pub trim_view : Bytes → Bytes
trim_view s = reverse (skip_space (reverse (skip_space s)))

-- std::string_view::find: the first position at which the key stands.
abbrev pub find : Bytes → Bytes → Option ℕ
find key [] = if is_prefix key [] then some 0 else none
find key (c ∷ s) = if is_prefix key (c ∷ s) then some 0 else Option.map suc (find key s)

-- std::string_view::rfind: the last position.
abbrev pub rfind : Bytes → Bytes → Option ℕ
rfind key [] = if is_prefix key [] then some 0 else none
rfind key (c ∷ s) = elim (rfind key s) [
  | some n ↦ some (suc n)
  | none ↦ if is_prefix key (c ∷ s) then some 0 else none
]

-- `key.size()` is subtracted as a size_t, but the test is reached only with a position in `s`.
unfoldable pub ends_with : Bytes → Bytes → Bool
ends_with s key = elim (rfind key s) [ some n ↦ n == length s - length key | none ↦ false ]

unfoldable pub starts_with : Bytes → Bytes → Bool
starts_with s key = elim (find key s) [ some n ↦ n == 0 | none ↦ false ]

unfoldable pub contains : Bytes → Bytes → Bool
contains s key = elim (find key s) [ some n ↦ true | none ↦ false ]

-- The loop of `split` and of `split_view`; the argument is the text from `prev_pos` on.
pub split_from : ℕ → Bytes → Bytes → Option (List Bytes)
split_from zero sep s = none
split_from (suc fuel) sep s = elim (find sep s) [
  | some n ↦ Option.map (λ ps. take n s ∷ ps) (split_from fuel sep (drop (length sep) (drop n s)))
  | none ↦ some (s ∷ [])
]

unfoldable pub split : Bytes → Bytes → Option (List Bytes)
unfolding split_from
split s sep = split_from (suc (length s)) sep s

-- The loop of `replace`; `ret` is what it has appended so far.
pub replace_from : ℕ → Bytes → Bytes → Bytes → Bytes → Option Bytes
replace_from zero key repl ret s = none
replace_from (suc fuel) key repl ret s = elim (find key s) [
  | some n ↦ replace_from fuel key repl ((ret ++ take n s) ++ repl) (drop (length key) (drop n s))
  | none ↦ some (ret ++ s)
]

unfoldable pub replace : Bytes → Bytes → Bytes → Option Bytes
unfolding replace_from
replace s key repl = replace_from (suc (length s)) key repl [] s

unfoldable pub joinstr : Bytes → List Bytes → Bytes
joinstr joiner [] = []
joinstr joiner (p ∷ []) = p
joinstr joiner (p ∷ q ∷ ps) = p ++ (joiner ++ joinstr joiner (q ∷ ps))
