-- ===== src/Debate/Shifts.antt =====
-- What the steps of the parser do to the words that are left and to the chain of parsers.
use bpt.Prelude.{
  ℕ, zero, suc, ◌+◌, ◌≤◌, some, List, [], ◌∷◌, ◌++◌, ◌==◌, ◌≡◌, ◌⊎◌, inl, inr, refl, ap, ◌∙◌, arith,
  length, drop, Bytes, codes, bytes_eq, Option-cases, Bool-cases,
}
use bpt.Debate.{
  Argument, Parser, ok, err, Engine, arguments, try_match_long, shift, mem_id, see, act,
  broken_assertion, next_value, take_values, dispatch_long, try_parse_long_1, long_in_chain,
  try_parse_long,
}
use bpt.Debate.Results.{and_then-eq-ok}

-- At least `n` words were shifted, in the same chain of parsers.
abbrev pub Shifts : ℕ → Engine → Engine → Type 0
Shifts n e e' = (n + length e'.args ≤ length e.args) × (e'.chain ≡ e.chain)

pub Shifts-add : (n m : ℕ) (a b c : Engine) → Shifts n a b → Shifts m b c → Shifts (n + m) a c
Shifts-add n m a b c (h, p) (k, q) = (omega (arith, h, k), q ∙ p)

pub shift-Shifts : (e e' : Engine) → shift e ≡ ok e' → Shifts 1 e e'
shift-Shifts e e' h = at_args e.args refl h
  where
    at_args :
        (args : List Bytes)
        → e.args ≡ args
        → (elim args [ [] ↦ err broken_assertion | a ∷ rest ↦ ok (record e { args = rest }) ])
          ≡ ok e'
        → Shifts 1 e e'
    at_args [] k h = cc
    at_args (a ∷ rest) k h =
        let is : record e { args = rest } ≡ e' = cc h in
        let len : length e.args ≡ suc (length rest) = ap length k in
        rw (← is) (omega (arith, len), refl)

pub see-Shifts : (arg : Argument) (e e' : Engine) → see arg e ≡ ok e' → Shifts 0 e e'
see-Shifts arg e e' h = elim (Bool-cases (mem_id arg.id e.seen)) [
  | inr new ↦
      let h' = rw (new) at h in
      let is : record e { seen = arg.id ∷ e.seen } ≡ e' = cc h' in rw (← is) (omega arith, refl)
  | inl old ↦ elim (Bool-cases arg.can_repeat) [
    | inr once ↦ let h' = rw (old, once) at h in cc h'
    | inl again ↦
        let h' = rw (old, again) at h in let is : e ≡ e' = cc h' in rw (← is) (omega arith, refl)
  ]
]

pub act-Shifts :
    (arg : Argument) (value spelling : Bytes) (e e' : Engine)
    → act arg value spelling e ≡ ok e'
    → Shifts 0 e e'
act-Shifts arg value spelling e e' h = elim (Bool-cases (arg.action value spelling)) [
  | inr throws ↦ let h' = rw (throws) at h in cc h'
  | inl returns ↦
      let h' = rw (returns) at h in
      let is : record e {
        calls = e.calls ++ (record { arg = arg.id; value = value; spelling = spelling }) ∷ [];
      }
          ≡ e' =
        cc h' in
      rw (← is) (omega arith, refl)
]

pub take_values-Shifts :
    (arg : Argument) (spelling : Bytes) (n : ℕ) (e e' : Engine)
    → take_values arg spelling n e ≡ ok e'
    → Shifts n e e'
take_values-Shifts arg spelling zero e e' h =
    let is : e ≡ e' = cc h in rw (← is) (omega arith, refl)
take_values-Shifts arg spelling (suc n) e e' h =
    let (value, v, h0) = and_then-eq-ok (next_value e) _ h in
    let (e1, a, h1) = and_then-eq-ok (act arg value spelling e) _ h0 in
    let (e2, s, h2) = and_then-eq-ok (shift e1) _ h1 in
    let (first, same) = act-Shifts arg value spelling e e1 a in
    let (second, same2) = shift-Shifts e1 e2 s in
    let (third, same3) = take_values-Shifts arg spelling n e2 e' h2 in
    (omega (arith, first, second, third), same3 ∙ same2 ∙ same)

dispatch_long-Shifts :
    (arg : Argument) (tail given : Bytes) (e e' : Engine)
    → dispatch_long arg tail given e ≡ ok e'
    → Shifts 0 e e'
dispatch_long-Shifts arg [] given e e' h = elim (Bool-cases (arg.nargs == 0)) [
  | inl switch ↦ act-Shifts arg given given e e' (rw (switch) at h)
  | inr values ↦
      let (le, same) = take_values-Shifts arg given arg.nargs e e' (rw (values) at h) in
      (omega (arith, le), same)
]
dispatch_long-Shifts arg (c ∷ value) given e e' h = elim (Bool-cases (arg.nargs == 0)) [
  | inl switch ↦ let h' = rw (switch) at h in cc h'
  | inr values ↦
      let h1 = rw (values) at h in
      elim (Bool-cases (c == 61)) [
        | inr other ↦ let h2 = rw (other) at h1 in cc h2
        | inl equals ↦
            let h2 = rw (equals) at h1 in
            elim (Bool-cases (arg.nargs == 1)) [
              | inr more ↦ let h3 = rw (more) at h2 in cc h3
              | inl one ↦ act-Shifts arg value given e e' (rw (one) at h2)
            ]
      ]
]

pub name_cases : (name : Bytes) → (name ≡ []) ⊎ ((c : ℕ) × (rest : Bytes) × (name ≡ c ∷ rest))
name_cases [] = inl refl
name_cases (c ∷ rest) = inr (c, rest, refl)

try_parse_long_1-Shifts :
    (args : List Argument) (tail : Bytes) (e e' : Engine)
    → try_parse_long_1 args tail e ≡ ok (some e')
    → Shifts 1 e e'
try_parse_long_1-Shifts [] tail e e' h = cc
try_parse_long_1-Shifts (cand ∷ args) tail e e' h =
    elim (name_cases (try_match_long cand.long_spellings tail)) [
      | inl other ↦ try_parse_long_1-Shifts args tail e e' (rw (try_parse_long_1, other) at h)
      | inr (c, rest, k) ↦
          let h' = rw (try_parse_long_1, k) at h in
          let (e1, s, h1) = and_then-eq-ok (shift e) _ h' in
          let (e2, v, h2) = and_then-eq-ok (see cand e1) _ h1 in
          let (e3, d, h3) =
            and_then-eq-ok
              (dispatch_long cand (drop (length (c ∷ rest)) tail) (codes "--" ++ c ∷ rest) e2) _
              h2 in
          let is : e3 ≡ e' = cc h3 in
          rw (← is) (
            Shifts-add 1 0 e e2 e3
              (Shifts-add 1 0 e e1 e2 (shift-Shifts e e1 s) (see-Shifts cand e1 e2 v))
              (dispatch_long-Shifts cand _ _ e2 e3 d))
    ]

long_in_chain-Shifts :
    (chain : List Parser) (tail : Bytes) (e e' : Engine)
    → long_in_chain chain tail e ≡ ok (some e')
    → Shifts 1 e e'
long_in_chain-Shifts [] tail e e' h = cc
long_in_chain-Shifts (argset ∷ parents) tail e e' h =
    let (r, first, rest) = and_then-eq-ok (try_parse_long_1 (arguments argset) tail e) _ h in
    elim (Option-cases r) [
      | inl n ↦ long_in_chain-Shifts parents tail e e' (rw (n) at rest)
      | inr (e1, k) ↦
          let rest' = rw (k) at rest in
          try_parse_long_1-Shifts (arguments argset) tail e e' (first ∙ ap ok k ∙ cc rest')
    ]

pub try_parse_long-Shifts :
    (tail : Bytes) (e e' : Engine) → try_parse_long tail e ≡ ok (some e') → Shifts 1 e e'
unfolding try_parse_long
try_parse_long-Shifts tail e e' h = elim (Bool-cases (bytes_eq tail (codes "help"))) [
  | inl help ↦ let h' = rw (help) at h in cc h'
  | inr other ↦ long_in_chain-Shifts e.chain tail e e' (rw (other) at h)
]
