-- ===== src/Shlex/Run.antt =====
-- How the automaton of `split_shell_string` runs over an argument that was quoted.
use mathlib.Core.List.{foldl, foldl-append}
use bpt.Prelude.{
  ℕ, true, false, Option, none, some, List, [], ◌∷◌, ◌++◌, Bytes, ◌≡◌, refl, arith, ◌∙◌,
  append_assoc, append-nil, All, ◌≢◌,
}
use bpt.Text.Split.{substitute}
use bpt.Shlex.{Lexer, backslash, dquote, extend, step, okay_char, push_token, all_okay}

abbrev pub state : ℕ → Option Bytes → List Bytes → Lexer
state q tok acc = record { cur_quote = q; is_escaped = false; token = tok; acc = acc }

abbrev pub NoBackslash : Bytes → Type 0
NoBackslash = All (λ c. c ≢ backslash)

-- A text with a backslash before each double quote.
abbrev pub escape_quotes : Bytes → Bytes
escape_quotes = substitute dquote (backslash ∷ dquote ∷ [])

-- Between double quotes the escaped text is taken into the token without its backslashes.
pub run_quoted :
    (s t : Bytes) (acc : List Bytes)
    → NoBackslash s
    → foldl step (state dquote (some t) acc) (escape_quotes s) ≡ state dquote (some (t ++ s)) acc
unfolding step
run_quoted [] t acc h = rw (append-nil t)
run_quoted (c ∷ s) t acc h =
    ground (arith, run_quoted s (t ++ c ∷ []) acc, append_assoc t (c ∷ []) s)

okay_char-step :
    (c : ℕ) (tok : Option Bytes) (acc : List Bytes)
    → okay_char c ≡ true
    → step (state 0 tok acc) c ≡ state 0 (extend tok (c ∷ [])) acc
unfolding step
okay_char-step c tok acc h = ground arith

-- Outside of quotes characters that need no quoting are taken as they are.
run_plain :
    (s t : Bytes) (acc : List Bytes)
    → all_okay s ≡ true
    → foldl step (state 0 (some t) acc) s ≡ state 0 (some (t ++ s)) acc
run_plain [] t acc h = rw (append-nil t)
run_plain (c ∷ s) t acc h =
    ground (
      arith,
      okay_char-step c (some t) acc,
      run_plain s (t ++ c ∷ []) acc,
      append_assoc t (c ∷ []) s,
    )

-- What the lexer holds as its token after an argument: an empty argument leaves none.
abbrev pub token_of : Bytes → Option Bytes
token_of [] = none
token_of (c ∷ s) = some (c ∷ s)

pub run_unquoted :
    (s : Bytes) (acc : List Bytes)
    → all_okay s ≡ true
    → foldl step (state 0 none acc) s ≡ state 0 (token_of s) acc
run_unquoted [] acc h = refl
run_unquoted (c ∷ s) acc h = ground (arith, okay_char-step c none acc, run_plain s (c ∷ []) acc)

pub run_argument :
    (s : Bytes) (acc : List Bytes)
    → NoBackslash s
    → foldl step (state 0 none acc) (dquote ∷ (escape_quotes s ++ dquote ∷ []))
      ≡ state 0 (some s) acc
unfolding step
run_argument s acc h =
    foldl-append step (state dquote (some []) acc) (escape_quotes s) (dquote ∷ [])
    ∙ rw (run_quoted s [] acc h)

-- A blank outside of quotes ends the token.
pub run_blank :
    (tok : Option Bytes) (acc : List Bytes) (s : Bytes)
    → foldl step (state 0 tok acc) (32 ∷ s) ≡ foldl step (state 0 none (push_token acc tok)) s
unfolding step
run_blank tok acc s = refl

pub run_open :
    (tok : Option Bytes) (acc : List Bytes) (s : Bytes)
    → foldl step (state 0 tok acc) (dquote ∷ s) ≡ foldl step (state dquote (some []) acc) s
unfolding step
run_open tok acc s = refl

pub run_close :
    (t : Bytes) (acc : List Bytes)
    → foldl step (state dquote (some t) acc) (dquote ∷ []) ≡ state 0 (some t) acc
unfolding step
run_close t acc = refl

-- A backslash between double quotes is dropped, and the character after it is taken.
pub escape_step :
    (t : Bytes) (acc : List Bytes) (c : ℕ) (s : Bytes)
    → c ≢ 10
    → foldl step (state dquote (some t) acc) (backslash ∷ c ∷ s)
      ≡ foldl step (state dquote (some (t ++ c ∷ [])) acc) s
unfolding step
escape_step t acc c s h = ground arith
