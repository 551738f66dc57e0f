-- ===== src/Debate/Tests.antt =====
use bpt.Prelude.{true, false, none, some, List, [], ◌∷◌, ◌≡◌, refl, Bytes, codes}
use bpt.Debate.{
  Argument, Parser, parser, no_more, subparser, ok, err, invalid_repetition, missing_required,
  Engine, try_parse_long,
}
use bpt.Debate.Parse.{run, parse_argv, parse_another, finalize, try_parse_given}
use bpt.Debate.Switches.{IsSwitch, run-short_switch}

abbrev level : Argument
level = record {
  id = 1;
  long_spellings = codes "log-level" ∷ [];
  short_spellings = codes "l" ∷ [];
  required = true;
  nargs = 1;
  can_repeat = false;
  action = λ value spelling. true;
}

abbrev file : Argument
file = record level { id = 2; long_spellings = []; short_spellings = []; required = false }

abbrev verbose : Argument
verbose = record level {
  id = 3;
  long_spellings = [];
  short_spellings = codes "v" ∷ [];
  required = false;
  nargs = 0;
}

abbrev egg : Parser
egg = parser (level ∷ file ∷ []) none no_more

abbrev food : Parser
food = parser [] (some true) (subparser (codes "egg") egg no_more)

abbrev loud : Parser
loud = parser (level ∷ verbose ∷ []) none no_more

abbrev words : List Bytes
words = codes "egg" ∷ codes "-linfo" ∷ codes "a.txt" ∷ []

abbrev parsed : Engine
parsed = record {
  args = [];
  chain = egg ∷ food ∷ [];
  positional_index = 1;
  seen = 2 ∷ 1 ∷ [];
  calls =
      (record { arg = 1; value = codes "info"; spelling = codes "-l" })
      ∷ (record { arg = 2; value = codes "a.txt"; spelling = codes "a.txt" })
      ∷ [];
}

wants_subcommand : run 0 (parse_argv food []) ≡ some (err missing_required)
unfolding run finalize
wants_subcommand = refl

reads_long_value :
    run 1 (parse_argv egg (codes "--log-level=info" ∷ []))
    ≡ some (
        ok (record parsed {
          chain = egg ∷ [];
          positional_index = 0;
          seen = 1 ∷ [];
          calls = (record { arg = 1; value = codes "info"; spelling = codes "--log-level" }) ∷ [];
        }))
unfolding run parse_another finalize try_parse_given try_parse_long
reads_long_value = refl

verbose-IsSwitch : IsSwitch (level ∷ []) [] verbose 118 []
verbose-IsSwitch = record {
  others = (refl, tt);
  matches = refl;
  no_value = refl;
  one_hyphen = refl;
  not_help = refl;
  returns = refl;
}

run-short_switch_example :
    run 2 (parse_argv loud (codes "-v" ∷ codes "a.txt" ∷ [])) ≡ some (err invalid_repetition)
run-short_switch_example =
    run-short_switch loud (level ∷ []) [] verbose 118 [] (codes "a.txt" ∷ []) refl verbose-IsSwitch
      0
