-- ===== src/Debate/Ends.antt =====
-- When no argument without a value has a short spelling, each word is parsed in one round.
use bpt.Prelude.{◌+◌, ◌≤◌, ◌≡◌, ◌⊎◌, inl, inr, refl, length, All}
use bpt.Debate.{Result, ParseError, ok, err, Engine}
use bpt.Debate.Short.{IsSwitchless}
use bpt.Debate.Shifts.{Shifts}

-- A word was parsed: at least one is shifted, and no switch of the chain has a short spelling.
abbrev Parsed : Engine → Engine → Type 0
Parsed e e' = (1 + length e'.args ≤ length e.args) × All IsSwitchless e'.chain

pub Result-cases :
    {A : Type 0} (r : Result A) → ((x : ParseError) × (r ≡ err x)) ⊎ ((a : A) × (r ≡ ok a))
Result-cases (ok a) = inr (a, refl)
Result-cases (err x) = inl (x, refl)
