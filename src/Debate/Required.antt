-- ===== src/Debate/Required.antt =====
-- What a command line that was parsed has given.
use bpt.Prelude.{true, false, [], ◌≡◌, Elem}
use bpt.Debate.{Argument, Parser, Engine, arguments, mem_id}
use bpt.Debate.Parse.{needs_subcommand, bottom}

pub record IsAccepted (e : Engine) : Type 0 where
  pub ended : e.args ≡ []
  pub given :
      (p : Parser) (arg : Argument)
      → Elem p e.chain
      → Elem arg (arguments p)
      → arg.required ≡ true
      → mem_id arg.id e.seen ≡ true
  pub subcommand : needs_subcommand (bottom e.chain) ≡ false
