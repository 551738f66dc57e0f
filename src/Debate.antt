-- ===== src/Debate.antt =====
-- src/debate/argument_parser.cpp and argument.cpp: the parser of command lines.
--
-- An argument is known by `id`, which stands for its address. What its action does with a value is
-- an argument of the model: it returns or throws. The calls of actions are kept in order.
pub mod Parse
pub mod Results
pub mod Shifts
pub mod Short
pub mod Ends
pub mod Switches
pub mod Required
mod Rounds
mod Tests
use mathlib.Core.Option
use bpt.Prelude.{
  ℕ, zero, suc, ◌+◌, Bool, true, false, not, ◌&&◌, Option, none, some, List, [], ◌∷◌, ◌++◌, ◌==◌,
  if◌then◌else◌, length, drop, Bytes, codes, bytes_eq, is_prefix,
}

pub record Argument : Type 0 where
  pub id : ℕ
  pub long_spellings : List Bytes
  pub short_spellings : List Bytes
  pub required : Bool
  pub nargs : ℕ
  pub can_repeat : Bool
  pub action : Bytes → Bytes → Bool

mutual
  -- A parser, with `required` of its group of subparsers, if it has one, and that group.
  pub data Parser : Type 0 where
    parser : List Argument → Option Bool → Subparsers → Parser

  pub data Subparsers : Type 0 where
    no_more : Subparsers
    subparser : Bytes → Parser → Subparsers → Subparsers

-- The exceptions that are thrown, and a failed assertion.
pub data ParseError : Type 0 where
  invalid_repetition : ParseError
  unrecognized_argument : Bytes → ParseError
  help_request : ParseError
  invalid_arguments : ParseError
  missing_required : ParseError
  broken_assertion : ParseError
  -- Not of the source: the fuel of the loop over a group of short arguments has ended.
  out_of_rounds : ParseError

pub data Result (A : Type 0) : Type 0 where
  ok : A → Result A
  err : ParseError → Result A

abbrev pub and_then : {A B : Type 0} → Result A → (A → Result B) → Result B
and_then (ok a) f = f a
and_then (err e) f = err e

pub record Call : Type 0 where
  pub arg : ℕ
  pub value : Bytes
  pub spelling : Bytes

-- `parse_engine`; `chain` is bottom_parser and its parents.
pub record Engine : Type 0 where
  pub args : List Bytes
  pub chain : List Parser
  pub positional_index : ℕ
  pub seen : List ℕ
  pub calls : List Call

abbrev pub arguments : Parser → List Argument
arguments (parser args group subs) = args

abbrev pub has_nil : List Bytes → Bool
has_nil [] = true
has_nil (s ∷ rest) = false

abbrev pub is_positional : Argument → Bool
is_positional arg = has_nil arg.long_spellings && has_nil arg.short_spellings

abbrev pub try_match_short : List Bytes → Bytes → Bytes
try_match_short [] given = []
try_match_short (cand ∷ spellings) given =
    let rest = try_match_short spellings given in if is_prefix cand given then cand else rest

-- Nothing, or an equals sign.
abbrev pub ends_name : Bytes → Bool
ends_name [] = true
ends_name (c ∷ tail) = c == 61

abbrev pub try_match_long : List Bytes → Bytes → Bytes
try_match_long [] given = []
try_match_long (cand ∷ spellings) given =
    let rest = try_match_long spellings given in
    if is_prefix cand given && ends_name (drop (length cand) given) then cand else rest

-- `current_arg` and `shift` of parser_state_impl.
abbrev pub current_arg : Engine → Result Bytes
current_arg e = elim e.args [ [] ↦ err broken_assertion | a ∷ rest ↦ ok a ]

abbrev pub shift : Engine → Result Engine
shift e = elim e.args [ [] ↦ err broken_assertion | a ∷ rest ↦ ok (record e { args = rest }) ]

abbrev pub mem_id : ℕ → List ℕ → Bool
mem_id i [] = false
mem_id i (j ∷ ids) = let rest = mem_id i ids in if i == j then true else rest

abbrev pub see : Argument → Engine → Result Engine
see arg e =
    if mem_id arg.id e.seen
    then if arg.can_repeat then ok e else err invalid_repetition
    else ok (record e { seen = arg.id ∷ e.seen })

-- A call of the action of an argument.
abbrev pub act : Argument → Bytes → Bytes → Engine → Result Engine
act arg value spelling e =
    if arg.action value spelling
    then ok (record e {
      calls = e.calls ++ (record { arg = arg.id; value = value; spelling = spelling }) ∷ [];
    })
    else err invalid_arguments

-- The next word as a value, where the end of the words is an error.
abbrev pub next_value : Engine → Result Bytes
next_value e = elim e.args [ [] ↦ err invalid_arguments | a ∷ rest ↦ ok a ]

-- The loop for an argument with several values.
abbrev pub take_values : Argument → Bytes → ℕ → Engine → Result Engine
take_values arg spelling zero e = ok e
take_values arg spelling (suc n) e = and_then (next_value e) (λ value.
    and_then (act arg value spelling e) (λ e1. and_then (shift e1) (take_values arg spelling n)))

abbrev pub dispatch_long : Argument → Bytes → Bytes → Engine → Result Engine
dispatch_long arg tail given e =
    if arg.nargs == 0
    then elim tail [ [] ↦ act arg given given e | c ∷ rest ↦ err invalid_arguments ]
    else elim tail [
      | [] ↦ take_values arg given arg.nargs e
      | c ∷ value ↦
          if c == 61
          then if arg.nargs == 1 then act arg value given e else err invalid_arguments
          else err broken_assertion
    ]

-- A result with `none` when nothing was parsed.
abbrev pub try_parse_long_1 : List Argument → Bytes → Engine → Result (Option Engine)
try_parse_long_1 [] tail e = ok none
try_parse_long_1 (cand ∷ args) tail e = elim (try_match_long cand.long_spellings tail) [
  | [] ↦ try_parse_long_1 args tail e
  | c ∷ rest ↦ and_then (shift e) (λ e1. and_then (see cand e1) (λ e2.
      and_then (dispatch_long cand (drop (length (c ∷ rest)) tail) (codes "--" ++ c ∷ rest) e2)
        (λ e3. ok (some e3))))
]

abbrev pub long_in_chain : List Parser → Bytes → Engine → Result (Option Engine)
long_in_chain [] tail e = ok none
long_in_chain (argset ∷ parents) tail e =
    and_then (try_parse_long_1 (arguments argset) tail e)
      (λ r. elim r [ some e1 ↦ ok (some e1) | none ↦ long_in_chain parents tail e ])

unfoldable pub try_parse_long : Bytes → Engine → Result (Option Engine)
try_parse_long tail e =
    if bytes_eq tail (codes "help") then err help_request else long_in_chain e.chain tail e
