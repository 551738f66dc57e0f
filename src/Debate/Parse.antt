-- ===== src/Debate/Parse.antt =====
-- src/debate/argument_parser.cpp: groups of short arguments, positional arguments, subcommands, and
-- the loop over all words.
use bpt.Prelude.{
  ℕ, zero, suc, Bool, true, false, not, ◌&&◌, Option, none, some, List, [], ◌∷◌, ◌++◌, ◌==◌,
  if◌then◌else◌, length, drop, Bytes, codes, bytes_eq,
}
use bpt.Debate.{
  Argument, Result, and_then, Engine, arguments, is_positional, try_match_short, current_arg, shift,
  mem_id, see, act, take_values, try_parse_long, parser, no_more, subparser, ok, err,
  unrecognized_argument, help_request, invalid_arguments, missing_required, broken_assertion,
  out_of_rounds, Subparsers, Parser,
}

-- The rest of the group, and the state after it.
abbrev pub dispatch_short : Argument → Bytes → Bytes → Engine → Result (Bytes × Engine)
dispatch_short arg tail spelling e =
    if arg.nargs == 0
    then and_then (act arg [] spelling e) (λ e1. ok (tail, e1))
    else if arg.nargs == 1
    then elim tail [
      | [] ↦ and_then (shift e) (λ e1. and_then (take_values arg spelling 1 e1) (λ e2. ok ([], e2)))
      | c ∷ rest ↦
          and_then (act arg (c ∷ rest) spelling e) (λ e1. and_then (shift e1) (λ e2. ok ([], e2)))
    ]
    else elim tail [
      | c ∷ rest ↦ err invalid_arguments
      | [] ↦
          and_then (shift e)
            (λ e1. and_then (take_values arg spelling arg.nargs e1) (λ e2. ok ([], e2)))
    ]

-- `none` when no argument of the parser has matched.
abbrev pub try_parse_short_1 : List Argument → Bytes → Engine → Result (Option (Bytes × Engine))
try_parse_short_1 [] tail e = ok none
try_parse_short_1 (cand ∷ args) tail e = elim (try_match_short cand.short_spellings tail) [
  | [] ↦ try_parse_short_1 args tail e
  | c ∷ rest ↦ and_then (see cand e) (λ e1.
      and_then (dispatch_short cand (drop (length (c ∷ rest)) tail) (codes "-" ++ c ∷ rest) e1)
        (λ r. ok (some r)))
]

abbrev pub short_in_chain : List Parser → Bytes → Engine → Result (Option (Bytes × Engine))
short_in_chain [] tail e = ok none
short_in_chain (argset ∷ parents) tail e =
    and_then (try_parse_short_1 (arguments argset) tail e)
      (λ r. elim r [ some r1 ↦ ok (some r1) | none ↦ short_in_chain parents tail e ])

-- The loop over a group; each round takes at least one character of it.
abbrev pub short_group : ℕ → Bytes → Engine → Result (Option Engine)
short_group zero tail e = err out_of_rounds
short_group (suc fuel) tail e = and_then (short_in_chain e.chain tail e) (λ r. elim r [
  | none ↦ ok none
  | some (new_tail, e1) ↦ elim new_tail [
    | [] ↦ ok (some e1)
    | c ∷ rest ↦ short_group fuel (c ∷ rest) e1
  ]
])

unfoldable pub try_parse_short : Bytes → Engine → Result (Option Engine)
try_parse_short tail e =
    if bytes_eq tail (codes "h") then err help_request else short_group (suc (length tail)) tail e

-- An argument that cannot be repeated gives the turn to the next one.
abbrev pub past : Argument → Engine → Engine
past arg e = if arg.can_repeat then e else record e { positional_index = suc e.positional_index }

-- The positional argument whose turn it is takes the value.
abbrev pub take_positional : Argument → Bytes → Engine → Result (Option Engine)
take_positional arg given e =
    if arg.nargs == 1
    then and_then (see arg e) (λ e1. and_then (act arg given given e1) (λ e2.
      and_then
        (shift
          (if arg.can_repeat then e2 else record e2 { positional_index = suc e2.positional_index }))
        (λ e3. ok (some e3))))
    else err broken_assertion

abbrev pub positional_from : List Argument → ℕ → Bytes → Engine → Result (Option Engine)
positional_from [] pos_idx given e = ok none
positional_from (arg ∷ args) pos_idx given e =
    if is_positional arg
    then if pos_idx == e.positional_index
      then take_positional arg given e
      else positional_from args (suc pos_idx) given e
    else positional_from args pos_idx given e

abbrev pub bottom : List Parser → Parser
bottom [] = parser [] none no_more
bottom (p ∷ parents) = p

abbrev pub subparser_named : Subparsers → Bytes → Option Parser
subparser_named no_more given = none
subparser_named (subparser name p subs) given =
    let rest = subparser_named subs given in if bytes_eq name given then some p else rest

abbrev pub subparsers_of : Parser → Subparsers
subparsers_of (parser args group subs) = subs

-- The actions of a group and of a subparser set values, and are left out.
abbrev pub try_parse_subparser : Bytes → Engine → Result (Option Engine)
try_parse_subparser given e = elim (subparser_named (subparsers_of (bottom e.chain)) given) [
  | none ↦ ok none
  | some p ↦
      and_then (shift (record e { chain = p ∷ e.chain; positional_index = 0 })) (λ e1. ok (some e1))
]

abbrev pub parse_word : Bytes → Engine → Result (Option Engine)
parse_word given e =
    and_then (positional_from (arguments (bottom e.chain)) 0 given e)
      (λ r. elim r [ some e1 ↦ ok (some e1) | none ↦ try_parse_subparser given e ])

abbrev pub hyphen : ℕ
hyphen = 45

unfoldable pub try_parse_given : Bytes → Engine → Result (Option Engine)
unfolding try_parse_long try_parse_short
try_parse_given [] e = parse_word [] e
try_parse_given (a ∷ []) e = parse_word (a ∷ []) e
try_parse_given (a ∷ b ∷ rest) e =
    if a == hyphen
    then if b == hyphen then try_parse_long rest e else try_parse_short (b ∷ rest) e
    else parse_word (a ∷ b ∷ rest) e

unfoldable pub parse_another : Engine → Result Engine
unfolding try_parse_given
parse_another e = and_then (current_arg e) (λ given.
    and_then (try_parse_given given e)
      (λ r. elim r [ some e1 ↦ ok e1 | none ↦ err (unrecognized_argument given) ]))

-- Whether an argument of the list is required and was not seen.
abbrev pub missing_of : List Argument → List ℕ → Bool
missing_of [] seen = false
missing_of (arg ∷ args) seen =
    let rest = missing_of args seen in
    if arg.required && not (mem_id arg.id seen) then true else rest

abbrev pub missing_in : List Parser → List ℕ → Bool
missing_in [] seen = false
missing_in (argset ∷ parents) seen =
    let rest = missing_in parents seen in if missing_of (arguments argset) seen then true else rest

abbrev pub needs_subcommand : Parser → Bool
needs_subcommand (parser args none subs) = false
needs_subcommand (parser args (some required) subs) = required

unfoldable pub finalize : Engine → Result Engine
finalize e =
    if missing_in e.chain e.seen
    then err missing_required
    else if needs_subcommand (bottom e.chain)
    then err missing_required
    else ok e

abbrev pub at_end : Engine → Bool
at_end e = elim e.args [ [] ↦ true | a ∷ rest ↦ false ]

-- `run`, with `none` when the rounds do not suffice.
unfoldable pub run : ℕ → Engine → Option (Result Engine)
unfolding parse_another finalize
run zero e = elim (at_end e) [ true ↦ some (finalize e) | false ↦ none ]
run (suc fuel) e = elim (at_end e) [
  | true ↦ some (finalize e)
  | false ↦ elim (parse_another e) [ err x ↦ some (err x) | ok e1 ↦ run fuel e1 ]
]

abbrev pub parse_argv : Parser → List Bytes → Engine
parse_argv p args = record {
  args = args;
  chain = p ∷ [];
  positional_index = 0;
  seen = [];
  calls = [];
}
