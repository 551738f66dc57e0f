-- ===== src/Shlex.antt =====
-- src/bpt/util/shlex.cpp, and the quoting of src/bpt/util/proc.common.cpp and proc.hpp: the
-- automaton of `split_shell_string` as one function of a state and a character.
pub mod Run
pub mod Quoting
mod Tests
use mathlib.Core.List.{foldl}
use mathlib.Core.Option
use bpt.Prelude.{
  ℕ, Bool, true, false, not, ◌&&◌, ◌||◌, Option, none, some, List, [], ◌∷◌, ◌++◌, leb, ◌==◌,
  if◌then◌else◌, Bytes, codes, ◌>>=◌,
}
use bpt.Text.{replace, joinstr}

abbrev pub backslash : ℕ
backslash = 92

abbrev pub dquote : ℕ
dquote = 34

abbrev pub squote : ℕ
squote = 39

-- The local variables of the loop; `cur_quote` is 0 outside of quotes.
pub record Lexer : Type 0 where
  pub cur_quote : ℕ
  pub is_escaped : Bool
  pub token : Option Bytes
  pub acc : List Bytes

abbrev pub start : Lexer
start = record { cur_quote = 0; is_escaped = false; token = none; acc = [] }

-- token = token.value_or("") + t
abbrev pub extend : Option Bytes → Bytes → Option Bytes
extend tok t = some (Option.get_or tok [] ++ t)

abbrev pub push_token : List Bytes → Option Bytes → List Bytes
push_token acc none = acc
push_token acc (some t) = acc ++ t ∷ []

abbrev pub is_blank : ℕ → Bool
is_blank c = c == 9 || c == 32 || c == 10 || c == 13 || c == 12

abbrev pub escaped : ℕ → Option Bytes → ℕ → Option Bytes
escaped cur_quote token c =
    if c == 10
    then token
    else if not (cur_quote == 0) || not (c == cur_quote) || c == backslash
    then extend token (c ∷ [])
    else extend token (backslash ∷ c ∷ [])

-- One round of the `while` loop.
unfoldable pub step : Lexer → ℕ → Lexer
step s c =
    if s.is_escaped
    then record s { token = escaped s.cur_quote s.token c; is_escaped = false }
    else if c == backslash
    then record s { is_escaped = true }
    else if not (s.cur_quote == 0)
    then if c == s.cur_quote
      then record s { cur_quote = 0 }
      else record s { token = extend s.token (c ∷ []) }
    else if c == dquote || c == squote
    then record s { cur_quote = c; token = some [] }
    else if is_blank c
    then record s { acc = push_token s.acc s.token; token = none }
    else record s { token = extend s.token (c ∷ []) }

unfoldable pub split_shell_string : Bytes → List Bytes
unfolding step
split_shell_string shell = let s = foldl step start shell in push_token s.acc s.token

-- std::isalnum in the "C" locale.
abbrev pub is_alnum : ℕ → Bool
is_alnum c = leb 48 c && leb c 57 || leb 65 c && leb c 90 || leb 97 c && leb c 122

abbrev pub mem_byte : ℕ → Bytes → Bool
mem_byte c [] = false
mem_byte c (x ∷ s) = c == x || mem_byte c s

abbrev pub okay_char : ℕ → Bool
okay_char c = is_alnum c || mem_byte c (codes "@%-+=:,./|_")

abbrev pub all_okay : Bytes → Bool
all_okay [] = true
all_okay (c ∷ s) = okay_char c && all_okay s

unfoldable pub needs_quoting : Bytes → Bool
needs_quoting s = not (all_okay s)

-- Both calls of `replace` read `s`: the result of the first is overwritten.
unfoldable pub quote_argument : Bytes → Option Bytes
quote_argument s =
    if not (needs_quoting s)
    then some s
    else let first = replace s (backslash ∷ []) (backslash ∷ backslash ∷ []) in
      let second = replace s (dquote ∷ []) (backslash ∷ dquote ∷ []) in
      Option.map (λ new_s. dquote ∷ (new_s ++ dquote ∷ [])) second

-- The loop of `quote_command`; each argument is followed by a blank.
pub quote_loop : Bytes → List Bytes → Option Bytes
quote_loop acc [] = some acc
quote_loop acc (arg ∷ args) = quote_argument arg >>= λ q. quote_loop (acc ++ (q ++ 32 ∷ [])) args

-- std::string::pop_back, under the guard that the text is not empty.
pub pop_back : Bytes → Bytes
pop_back [] = []
pop_back (c ∷ []) = []
pop_back (c ∷ d ∷ s) = c ∷ pop_back (d ∷ s)

unfoldable pub quote_command : List Bytes → Option Bytes
unfolding quote_loop pop_back quote_argument
quote_command c = Option.map pop_back (quote_loop [] c)
