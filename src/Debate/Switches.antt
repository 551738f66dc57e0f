-- ===== src/Debate/Switches.antt =====
-- An argument without a value that is given by its short spelling.
use bpt.Prelude.{
  ℕ, zero, suc, true, false, none, some, List, [], ◌∷◌, ◌++◌, ◌==◌, ==_iff, ◌≡◌, inl, inr, refl,
  ◌∙◌, arith, if◌then◌else◌, length, drop, Bytes, codes, bytes_eq, Bool-cases, All,
}
use bpt.Debate.{
  Argument, Parser, ok, err, invalid_repetition, and_then, Call, Engine, arguments, try_match_short,
  mem_id, see,
}
use bpt.Debate.Ends.{Result-cases}
use bpt.Debate.Parse.{
  try_parse_short_1, try_parse_short, hyphen, try_parse_given, parse_another, run, parse_argv,
}

drop_all : (s : Bytes) → drop (length s) s ≡ []
drop_all [] = refl
drop_all (c ∷ s) = ground (arith, drop_all s)

-- The first argument of the parser that matches is a switch, and its spelling is the whole group.
pub record IsSwitch (before after : List Argument) (cand : Argument) (c : ℕ) (tail : Bytes)
    : Type 0 where
  pub others : All (λ a. try_match_short a.short_spellings (c ∷ tail) ≡ []) before
  pub matches : try_match_short cand.short_spellings (c ∷ tail) ≡ c ∷ tail
  pub no_value : cand.nargs ≡ 0
  pub one_hyphen : (c == hyphen) ≡ false
  pub not_help : bytes_eq (c ∷ tail) (codes "h") ≡ false
  pub returns : cand.action [] (codes "-" ++ c ∷ tail) ≡ true

module _ (p : Parser) (before after : List Argument) (cand : Argument) (c : ℕ) (tail : Bytes)
    (rest : List Bytes) (args : arguments p ≡ before ++ cand ∷ after)
    (s : IsSwitch before after cand c tail) where
  abbrev at_switch : List ℕ → List Call → Engine
  at_switch seen calls = record {
    args = (hyphen ∷ c ∷ tail) ∷ rest;
    chain = p ∷ [];
    positional_index = 0;
    seen = seen;
    calls = calls;
  }

  abbrev called : Call
  called = record { arg = cand.id; value = []; spelling = codes "-" ++ c ∷ tail }

  found :
      (xs : List Argument) (e : Engine)
      → All (λ a. try_match_short a.short_spellings (c ∷ tail) ≡ []) xs
      → try_parse_short_1 (xs ++ cand ∷ after) (c ∷ tail) e
        ≡ and_then
            (see cand e)
            (λ e1. ok (some ([], record e1 { calls = e1.calls ++ called ∷ [] })))
  found [] e all = rw (try_parse_short_1, s.matches, s.no_value, drop_all tail, s.returns)
  found (x ∷ xs) e (other, all) = rw (try_parse_short_1, other) (found xs e all)

  parse_switch :
      (seen : List ℕ) (calls : List Call)
      → parse_another (at_switch seen calls)
        ≡ and_then
            (see cand (at_switch seen calls))
            (λ e1. ok (record e1 { calls = e1.calls ++ called ∷ [] }))
  unfolding parse_another try_parse_given try_parse_short
  parse_switch seen calls =
      let f = found before (at_switch seen calls) s.others in
      elim (Result-cases (see cand (at_switch seen calls))) [
        | inl (x, threw) ↦ rw (s.one_hyphen, s.not_help, args, f, threw)
        | inr (e1, saw) ↦ rw (s.one_hyphen, s.not_help, args, f, saw)
      ]

  parse_again :
      (seen : List ℕ) (calls : List Call)
      → mem_id cand.id seen ≡ true
      → parse_another (at_switch seen calls) ≡ (
          if cand.can_repeat
          then ok (at_switch seen (calls ++ called ∷ []))
          else err invalid_repetition)
  parse_again seen calls m = elim (Bool-cases cand.can_repeat) [
    | inl again ↦ parse_switch seen calls ∙ rw (m, again)
    | inr once ↦ parse_switch seen calls ∙ rw (m, once)
  ]

  runs_again :
      (fuel : ℕ) (seen : List ℕ) (calls : List Call)
      → mem_id cand.id seen ≡ true
      → cand.can_repeat ≡ true
      → run fuel (at_switch seen calls) ≡ none
  unfolding run
  runs_again zero seen calls m r = refl
  runs_again (suc fuel) seen calls m r =
      let parsed : parse_another (at_switch seen calls)
          ≡ ok (at_switch seen (calls ++ called ∷ [])) =
        parse_again seen calls m ∙ rw (r) in
      rw (run, parsed) (runs_again fuel seen (calls ++ called ∷ []) m r)

  -- When the first word is a hyphen and a spelling, other than -h and not beginning with a hyphen,
  -- whose first matching argument in the parser takes no value and matches it whole, and its
  -- action returns, then after at least two rounds the parser has thrown invalid_repetition, or,
  -- for an argument that can be repeated, has not ended.
  pub run-short_switch :
      (fuel : ℕ)
      → run (suc (suc fuel)) (parse_argv p ((hyphen ∷ c ∷ tail) ∷ rest))
        ≡ (if cand.can_repeat then none else some (err invalid_repetition))
  unfolding run
  run-short_switch fuel =
      let first : parse_another (at_switch [] []) ≡ ok (at_switch (cand.id ∷ []) (called ∷ [])) =
        parse_switch [] [] in
      let there : mem_id cand.id (cand.id ∷ []) ≡ true = rw ((==_iff cand.id cand.id).1 refl) in
      let second = parse_again (cand.id ∷ []) (called ∷ []) there in
      elim (Bool-cases cand.can_repeat) [
        | inl again ↦
            rw (run, first, again) (runs_again (suc fuel) (cand.id ∷ []) (called ∷ []) there again)
        | inr once ↦
            let threw : parse_another (at_switch (cand.id ∷ []) (called ∷ []))
                ≡ err invalid_repetition =
              second ∙ rw (once) in
            rw (run, first, once, threw)
      ]
