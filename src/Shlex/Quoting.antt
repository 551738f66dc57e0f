-- ===== src/Shlex/Quoting.antt =====
-- `split_shell_string` undoes `quote_command`, except for empty arguments, which vanish, and for
-- backslashes, which `quote_argument` does not escape.
use mathlib.Core.List.{foldl, foldl-append}
use bpt.Prelude.{
  ℕ, Bool, true, false, ◌&&◌, none, some, List, [], ◌∷◌, ◌++◌, Bool-cases, inl, inr, sym,
  if◌then◌else◌, Bytes, ◌≡◌, refl, arith, ap, ◌∙◌, append_assoc, append-nil, All, ◌≢◌,
}
use bpt.Text.Split.{substitute-append, replace-single}
use bpt.Shlex.{
  Lexer, backslash, dquote, step, start, okay_char, push_token, all_okay, split_shell_string,
  needs_quoting, quote_argument, quote_loop, pop_back, quote_command,
}
use bpt.Shlex.Run.{
  state, NoBackslash, escape_quotes, token_of, run_unquoted, run_argument, run_quoted, run_blank,
  run_open, run_close, escape_step,
}

abbrev quoted : Bytes → Bytes
quoted s = if all_okay s then s else dquote ∷ (escape_quotes s ++ dquote ∷ [])

quote_argument_lem : (s : Bytes) → quote_argument s ≡ some (quoted s)
unfolding quote_argument needs_quoting
quote_argument_lem s = ground (arith, replace-single s dquote (backslash ∷ dquote ∷ []))

-- The token after a quoted argument holds its characters; an empty one leaves no token.
run-quoted :
    (s : Bytes) (acc : List Bytes)
    → NoBackslash s
    → foldl step (state 0 none acc) (quoted s) ≡ state 0 (token_of s) acc
run-quoted [] acc h = refl
run-quoted (c ∷ s) acc h = elim (Bool-cases (all_okay (c ∷ s))) [
  | inl okay ↦ rw okay (run_unquoted (c ∷ s) acc okay)
  | inr special ↦ rw special (run_argument (c ∷ s) acc h)
]

abbrev line : List Bytes → Bytes
line [] = []
line (a ∷ args) = quoted a ++ (32 ∷ line args)

quote_loop_lem : (acc : Bytes) (args : List Bytes) → quote_loop acc args ≡ some (acc ++ line args)
unfolding quote_loop
quote_loop_lem acc [] = rw (append-nil acc)
quote_loop_lem acc (a ∷ args) =
    rw (quote_argument_lem a, quote_loop_lem (acc ++ (quoted a ++ 32 ∷ [])) args)
      (ap some (append_assoc acc _ _ ∙ ap (λ t. acc ++ t) (append_assoc (quoted a) _ _)))

-- The arguments that a shell splitter can see.
abbrev pub visible : List Bytes → List Bytes
visible [] = []
visible ([] ∷ args) = visible args
visible ((c ∷ s) ∷ args) = (c ∷ s) ∷ visible args

abbrev finish : Lexer → List Bytes
finish s = push_token s.acc s.token

push-token_of :
    (a : Bytes) (acc : List Bytes) (args : List Bytes)
    → push_token acc (token_of a) ++ visible args ≡ acc ++ visible (a ∷ args)
push-token_of [] acc args = refl
push-token_of (c ∷ s) acc args = append_assoc acc _ _

pop_back-append : (a : Bytes) (c : ℕ) (s : Bytes) → pop_back (a ++ (c ∷ s)) ≡ a ++ pop_back (c ∷ s)
unfolding pop_back
pop_back-append [] c s = refl
pop_back-append (x ∷ []) c s = refl
pop_back-append (x ∷ y ∷ a) c s = ap (λ t. x ∷ t) (pop_back-append (y ∷ a) c s)

pop_back-cons :
    (x : ℕ) (u : Bytes) (c : ℕ) (s : Bytes)
    → pop_back (x ∷ (u ++ (c ∷ s))) ≡ x ∷ pop_back (u ++ (c ∷ s))
unfolding pop_back
pop_back-cons x [] c s = refl
pop_back-cons x (y ∷ u) c s = refl

run-line :
    (a : Bytes) (args acc : List Bytes)
    → All NoBackslash (a ∷ args)
    → finish (foldl step (state 0 none acc) (pop_back (line (a ∷ args))))
      ≡ acc ++ visible (a ∷ args)
unfolding pop_back
run-line a [] acc h =
    rw (pop_back-append (quoted a) 32 [], append-nil (quoted a), run-quoted a acc h.0)
      (sym (append-nil _) ∙ push-token_of a acc [])
run-line a (b ∷ args) acc h =
    rw
      (
        pop_back-append (quoted a) 32 (line (b ∷ args)),
        pop_back-cons 32 (quoted b) 32 (line args),
        foldl-append step (state 0 none acc) (quoted a) _,
        run-quoted a acc h.0,
        run_blank (token_of a) acc,
        run-line b args (push_token acc (token_of a)) h.1,
      )
      (push-token_of a acc (b ∷ args))

-- Splitting a quoted command gives its arguments that are not empty, if none has a backslash.
pub split-quote_command :
    (cmd : List Bytes)
    → All NoBackslash cmd
    → (shell : Bytes) × (quote_command cmd ≡ some shell) × (split_shell_string shell ≡ visible cmd)
unfolding quote_command split_shell_string
split-quote_command [] h = ([], refl, refl)
split-quote_command (a ∷ args) h =
    (pop_back (line (a ∷ args)), rw quote_loop_lem, run-line a args [] h)

-- A quoted text that the automaton takes whole into its token is read as one argument.
run_closed :
    (u s : Bytes)
    → foldl step (state dquote (some []) []) u ≡ state dquote (some s) []
    → split_shell_string (dquote ∷ (u ++ dquote ∷ [])) ≡ s ∷ []
unfolding split_shell_string
run_closed u s h =
    let runs : foldl step start (dquote ∷ (u ++ dquote ∷ [])) ≡ state 0 (some s) [] =
      run_open none [] (u ++ dquote ∷ [])
      ∙ foldl-append step (state dquote (some []) []) u (dquote ∷ [])
      ∙ rw h (run_close s []) in
    ap finish runs

and_false : (b : Bool) → (b && false) ≡ false
and_false true = refl
and_false false = refl

not-all_okay : (p s : Bytes) → all_okay (p ++ (backslash ∷ s)) ≡ false
not-all_okay [] s = refl
not-all_okay (c ∷ p) s = rw (not-all_okay p s) (and_false (okay_char c))

escape_quotes_middle :
    (p : Bytes) (c : ℕ) (r : Bytes)
    → c ≢ dquote
    → escape_quotes (p ++ (backslash ∷ c ∷ r))
      ≡ escape_quotes p ++ (backslash ∷ c ∷ escape_quotes r)
escape_quotes_middle p c r h =
    ground (arith, substitute-append dquote (backslash ∷ dquote ∷ []) p (backslash ∷ c ∷ r))

-- Between double quotes the run over a text with one backslash.
run_escape :
    (p : Bytes) (c : ℕ) (r : Bytes)
    → NoBackslash p
    → NoBackslash r
    → c ≢ 10
    → foldl step (state dquote (some []) []) (escape_quotes p ++ (backslash ∷ c ∷ escape_quotes r))
      ≡ state dquote (some (p ++ (c ∷ r))) []
run_escape p c r hp hr h =
    foldl-append step (state dquote (some []) []) (escape_quotes p)
      (backslash ∷ c ∷ escape_quotes r)
    ∙ rw
        (
          run_quoted p [] [] hp,
          escape_step p [] c (escape_quotes r) h,
          run_quoted r (p ++ c ∷ []) [] hr,
        )
        (ap (λ t. state dquote (some t) []) (append_assoc p (c ∷ []) r))

-- The text that a shell splitter reads back from an argument with one backslash, before a
-- character that is no double quote and no newline: the backslash is lost.
pub split-quote_argument-backslash :
    (p : Bytes) (c : ℕ) (r : Bytes)
    → NoBackslash p
    → NoBackslash r
    → c ≢ dquote
    → c ≢ 10
    → (shell : Bytes) × (quote_argument (p ++ (backslash ∷ c ∷ r)) ≡ some shell)
      × (split_shell_string shell ≡ (p ++ (c ∷ r)) ∷ [])
split-quote_argument-backslash p c r hp hr h2 h3 = (
  quoted (p ++ (backslash ∷ c ∷ r)),
  quote_argument_lem _,
  rw (not-all_okay p (c ∷ r), escape_quotes_middle p c r h2)
      (run_closed (escape_quotes p ++ (backslash ∷ c ∷ escape_quotes r)) (p ++ (c ∷ r))
        (run_escape p c r hp hr h3)),
)

-- An opening quote discards what the token held: unquoted text that stands directly before it is
-- lost.
pub split_text_before_quote :
    (p s : Bytes)
    → all_okay p ≡ true
    → NoBackslash s
    → split_shell_string (p ++ (dquote ∷ (escape_quotes s ++ dquote ∷ []))) ≡ s ∷ []
unfolding split_shell_string
split_text_before_quote p s hp hs =
    let opened : foldl step start (p ++ (dquote ∷ (escape_quotes s ++ dquote ∷ [])))
        ≡ foldl step (state dquote (some []) []) (escape_quotes s ++ dquote ∷ []) =
      foldl-append step start p _
      ∙ rw (run_unquoted p [] hp) (run_open (token_of p) [] (escape_quotes s ++ dquote ∷ [])) in
    let runs : foldl step start (p ++ (dquote ∷ (escape_quotes s ++ dquote ∷ [])))
        ≡ state 0 (some s) [] =
      opened
      ∙ foldl-append step (state dquote (some []) []) (escape_quotes s) (dquote ∷ [])
      ∙ rw (run_quoted s [] [] hs) (run_close s []) in
    ap finish runs
