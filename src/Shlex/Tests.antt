-- ===== src/Shlex/Tests.antt =====
-- Runs of the shell splitter and the quoting at concrete inputs.
use bpt.Prelude.{◌≡◌, refl, some, [], ◌∷◌, ◌++◌, Bytes, codes, arith}
use bpt.Text.{replace}
use bpt.Shlex.{split_shell_string, needs_quoting, quote_argument, quote_command, backslash, dquote}
use bpt.Shlex.Run.{escape_quotes}
use bpt.Shlex.Quoting.{
  visible, split-quote_command, split-quote_argument-backslash, split_text_before_quote,
}

splits_quotes :
    split_shell_string (codes "foo \"bar baz\"qux 'a b'")
    ≡ codes "foo" ∷ codes "bar bazqux" ∷ codes "a b" ∷ []
unfolding split_shell_string
splits_quotes = refl

quotes_command : quote_command (codes "c++" ∷ codes "a \"b" ∷ []) ≡ some (codes "c++ \"a \\\"b\"")
unfolding quote_command needs_quoting replace
quotes_command = refl

quotes_backslash : quote_argument (codes "a\\b") ≡ some (codes "\"a\\b\"")
unfolding quote_argument needs_quoting replace
quotes_backslash = refl

split-quote_command_example :
    (shell : Bytes) × (quote_command (codes "c++" ∷ [] ∷ codes "a \"b" ∷ []) ≡ some shell)
    × (split_shell_string shell ≡ visible (codes "c++" ∷ [] ∷ codes "a \"b" ∷ []))
split-quote_command_example =
    split-quote_command (codes "c++" ∷ [] ∷ codes "a \"b" ∷ []) (omega arith)

split-quote_argument-backslash_example :
    (shell : Bytes) × (quote_argument (codes "C:" ++ (backslash ∷ 100 ∷ codes "ir")) ≡ some shell)
    × (split_shell_string shell ≡ (codes "C:" ++ (100 ∷ codes "ir")) ∷ [])
split-quote_argument-backslash_example =
    split-quote_argument-backslash (codes "C:") 100 (codes "ir") (omega arith) (omega arith)
      (omega arith) (omega arith)

split_text_before_quote_example :
    split_shell_string (codes "abc" ++ (dquote ∷ (escape_quotes (codes "x y") ++ dquote ∷ [])))
    ≡ codes "x y" ∷ []
split_text_before_quote_example =
    split_text_before_quote (codes "abc") (codes "x y") refl (omega arith)
