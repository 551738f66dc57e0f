-- ===== src/Debate/Short.antt =====
-- Groups of short arguments, each of which takes a value.
use bpt.Prelude.{
  ℕ, ◌<◌, some, List, [], ◌∷◌, ◌++◌, ◌==◌, ◌≡◌, ◌⊎◌, inl, inr, sym, ap, ◌∙◌, arith, length, drop,
  Bytes, codes, bytes_eq, Option-cases, Bool-cases, All,
}
use bpt.Debate.{
  Argument, Parser, parser, Subparsers, no_more, subparser, ok, and_then, Engine, arguments,
  try_match_short, shift, see, act, take_values,
}
use bpt.Debate.Parse.{dispatch_short, try_parse_short_1, short_in_chain, try_parse_short}
use bpt.Debate.Results.{and_then-eq-ok}
use bpt.Debate.Shifts.{
  Shifts, Shifts-add, shift-Shifts, see-Shifts, act-Shifts, take_values-Shifts, name_cases,
}

-- An argument that is spelled short takes a value.
abbrev pub HasValue : Argument → Type 0
HasValue arg = (arg.short_spellings ≡ []) ⊎ (0 < arg.nargs)

unfoldable mutual
  pub IsSwitchless : Parser → Type 0
  IsSwitchless (parser args group subs) = All HasValue args × AreSwitchless subs

  pub AreSwitchless : Subparsers → Type 0
  AreSwitchless no_more = Unit
  AreSwitchless (subparser name p subs) = IsSwitchless p × AreSwitchless subs

after_shift :
    (arg : Argument) (n : ℕ) (spelling rest : Bytes) (e e' : Engine)
    → and_then {B = Bytes × Engine}
        (shift e)
        (λ e1. and_then (take_values arg spelling n e1) (λ e2. ok ([], e2)))
      ≡ ok (rest, e')
    → (rest ≡ []) × Shifts 1 e e'
after_shift arg n spelling rest e e' h =
    let (e1, s, h1) = and_then-eq-ok (shift e) _ h in
    let (e2, t, h2) = and_then-eq-ok (take_values arg spelling n e1) _ h1 in
    let is : ◌≡◌ {A = Bytes × Engine} ([], e2) (rest, e') = cc h2 in
    let (first, same) = shift-Shifts e e1 s in
    let (second, same2) = take_values-Shifts arg spelling n e1 e2 t in
    (sym (ap (λ x. x.0) is), rw (← ap (λ x. x.1) is) (omega (arith, first, second), same2 ∙ same))

dispatch_short-Shifts :
    (arg : Argument) (tail spelling rest : Bytes) (e e' : Engine)
    → 0 < arg.nargs
    → dispatch_short arg tail spelling e ≡ ok (rest, e')
    → (rest ≡ []) × Shifts 1 e e'
dispatch_short-Shifts arg [] spelling rest e e' v h = elim (Bool-cases (arg.nargs == 0)) [
  | inl switch ↦ ground (arith)
  | inr values ↦ elim (Bool-cases (arg.nargs == 1)) [
    | inl one ↦ after_shift arg 1 spelling rest e e' (rw (values, one) at h)
    | inr more ↦ after_shift arg arg.nargs spelling rest e e' (rw (values, more) at h)
  ]
]
dispatch_short-Shifts arg (c ∷ tail) spelling rest e e' v h = elim (Bool-cases (arg.nargs == 0)) [
  | inl switch ↦ ground (arith)
  | inr values ↦ elim (Bool-cases (arg.nargs == 1)) [
    | inl one ↦
        let (e1, a, h1) =
          and_then-eq-ok (act arg (c ∷ tail) spelling e) _ (rw (values, one) at h) in
        let (e2, s, h2) = and_then-eq-ok (shift e1) _ h1 in
        let is : ◌≡◌ {A = Bytes × Engine} ([], e2) (rest, e') = cc h2 in
        (
          sym (ap (λ x. x.0) is),
          rw (← ap (λ x. x.1) is) (
              Shifts-add 0 1 e e1 e2 (act-Shifts arg (c ∷ tail) spelling e e1 a)
                (shift-Shifts e1 e2 s)),
        )
    | inr more ↦ let h' = rw (values, more) at h in cc h'
  ]
]

short_value :
    (arg : Argument) (tail : Bytes) (c : ℕ) (rest : Bytes)
    → HasValue arg
    → try_match_short arg.short_spellings tail ≡ c ∷ rest
    → 0 < arg.nargs
short_value arg tail c rest (inr v) k = v
short_value arg tail c rest (inl nil) k = let k' = rw (nil) at k in cc k'

try_parse_short_1-Shifts :
    (args : List Argument) (tail rest : Bytes) (e e' : Engine)
    → All HasValue args
    → try_parse_short_1 args tail e ≡ ok (some (rest, e'))
    → (rest ≡ []) × Shifts 1 e e'
try_parse_short_1-Shifts [] tail rest e e' v h = cc
try_parse_short_1-Shifts (cand ∷ args) tail rest e e' (v, vs) h =
    elim (name_cases (try_match_short cand.short_spellings tail)) [
      | inl other ↦
          try_parse_short_1-Shifts args tail rest e e' vs (rw (try_parse_short_1, other) at h)
      | inr (c, name, k) ↦
          let h' = rw (try_parse_short_1, k) at h in
          let (e1, s, h1) = and_then-eq-ok (see cand e) _ h' in
          let (r, d, h2) =
            and_then-eq-ok
              (dispatch_short cand (drop (length (c ∷ name)) tail) (codes "-" ++ c ∷ name) e1) _
              h1 in
          let is : r ≡ (rest, e') = cc h2 in
          let (nil, shifted) =
            dispatch_short-Shifts cand _ _ rest e1 e' (short_value cand tail c name v k)
              (d ∙ ap ok is) in
          (nil, Shifts-add 0 1 e e1 e' (see-Shifts cand e e1 s) shifted)
    ]

All-chain : (p : Parser) → IsSwitchless p → All HasValue (arguments p)
unfolding IsSwitchless
All-chain (parser args group subs) (v, s) = v

short_in_chain-Shifts :
    (chain : List Parser) (tail rest : Bytes) (e e' : Engine)
    → All IsSwitchless chain
    → short_in_chain chain tail e ≡ ok (some (rest, e'))
    → (rest ≡ []) × Shifts 1 e e'
short_in_chain-Shifts [] tail rest e e' v h = cc
short_in_chain-Shifts (argset ∷ parents) tail rest e e' (v, vs) h =
    let (r, first, more) = and_then-eq-ok (try_parse_short_1 (arguments argset) tail e) _ h in
    elim (Option-cases r) [
      | inl n ↦ short_in_chain-Shifts parents tail rest e e' vs (rw (n) at more)
      | inr (r1, k) ↦
          let more' = rw (k) at more in
          try_parse_short_1-Shifts (arguments argset) tail rest e e' (All-chain argset v)
            (first ∙ ap ok k ∙ cc more')
    ]

pub try_parse_short-Shifts :
    (tail : Bytes) (e e' : Engine)
    → All IsSwitchless e.chain
    → try_parse_short tail e ≡ ok (some e')
    → Shifts 1 e e'
unfolding try_parse_short
try_parse_short-Shifts tail e e' v h = elim (Bool-cases (bytes_eq tail (codes "h"))) [
  | inl help ↦ let h' = rw (help) at h in cc h'
  | inr other ↦
      let (r, first, more) = and_then-eq-ok (short_in_chain e.chain tail e) _ (rw (other) at h) in
      elim (Option-cases r) [
        | inl n ↦ let more' = rw (n) at more in cc more'
        | inr ((rest, e1), k) ↦
            let (nil, shifted) = short_in_chain-Shifts e.chain tail rest e e1 v (first ∙ ap ok k) in
            let more' = rw (k, nil) at more in let is : e1 ≡ e' = cc more' in rw (← is) shifted
      ]
]
