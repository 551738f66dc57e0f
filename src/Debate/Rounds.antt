-- ===== src/Debate/Rounds.antt =====
-- The rounds of the loop over a group of short arguments, src/debate/argument_parser.cpp.
use bpt.Prelude.{
  ℕ, zero, suc, ◌<◌, ◌≤◌, Option, none, some, List, [], ◌∷◌, ◌++◌, ◌==◌, ◌≡◌, ◌≢◌, ◌⊎◌, inl, inr,
  refl, ap, arith, length, drop, length-drop, Bytes, codes, bytes_eq, Bool-cases,
}
use bpt.Debate.{
  Argument, Parser, Result, ok, err, out_of_rounds, and_then, Engine, arguments, mem_id,
  try_match_short, shift, see, act, next_value, take_values,
}
use bpt.Debate.Parse.{
  dispatch_short, try_parse_short_1, short_in_chain, short_group, try_parse_short,
}

-- A result with a property, or an exception of the source.
abbrev Holds : {A : Type 0} → (A → Type 0) → Result A → Type 0
Holds P (ok a) = P a
Holds P (err x) = x ≢ out_of_rounds

abbrev Any : {A : Type 0} → A → Type 0
Any a = Unit

and_then-Holds :
    {A B : Type 0} (P : A → Type 0) (Q : B → Type 0) (m : Result A) (f : A → Result B)
    → Holds P m
    → ((a : A) → P a → Holds Q (f a))
    → Holds Q (and_then m f)
and_then-Holds P Q (ok a) f h k = k a h
and_then-Holds P Q (err x) f h k = h

words_cases : {A : Type 0} (xs : List A) → (xs ≡ []) ⊎ ((x : A) × (rest : List A) × (xs ≡ x ∷ rest))
words_cases [] = inl refl
words_cases (x ∷ rest) = inr (x, rest, refl)

shift-Holds : (e : Engine) → Holds Any (shift e)
shift-Holds e = elim (words_cases e.args) [
  | inl n ↦ rw (shift, n) (λ h. cc h)
  | inr (a, rest, n) ↦ rw (shift, n) tt
]

act-Holds :
    (arg : Argument) (value spelling : Bytes) (e : Engine) → Holds Any (act arg value spelling e)
act-Holds arg value spelling e = elim (Bool-cases (arg.action value spelling)) [
  | inl t ↦ rw (act, t) tt
  | inr f ↦ rw (act, f) (λ h. cc h)
]

see-Holds : (arg : Argument) (e : Engine) → Holds Any (see arg e)
see-Holds arg e = elim (Bool-cases (mem_id arg.id e.seen)) [
  | inr new ↦ rw (see, new) tt
  | inl old ↦ elim (Bool-cases arg.can_repeat) [
    | inl again ↦ rw (see, old, again) tt
    | inr once ↦ rw (see, old, once) (λ h. cc h)
  ]
]

next_value-Holds : (e : Engine) → Holds Any (next_value e)
next_value-Holds e = elim (words_cases e.args) [
  | inl n ↦ rw (next_value, n) (λ h. cc h)
  | inr (a, rest, n) ↦ rw (next_value, n) tt
]

take_values-Holds :
    (arg : Argument) (spelling : Bytes) (n : ℕ) (e : Engine)
    → Holds Any (take_values arg spelling n e)
take_values-Holds arg spelling zero e = tt
take_values-Holds arg spelling (suc n) e =
    and_then-Holds Any Any (next_value e) _ (next_value-Holds e) (λ value v.
      and_then-Holds Any Any (act arg value spelling e) _ (act-Holds arg value spelling e) (λ e1 w.
        and_then-Holds Any Any (shift e1) _ (shift-Holds e1)
          (λ e2 u. take_values-Holds arg spelling n e2)))

-- What is left of a group is no longer than it was.
abbrev NoLonger : Bytes → Bytes × Engine → Type 0
NoLonger tail r = length r.0 ≤ length tail

values_after :
    (arg : Argument) (tail spelling : Bytes) (n : ℕ) (e : Engine)
    → Holds
        (NoLonger tail)
        (and_then (shift e) (λ e1. and_then (take_values arg spelling n e1) (λ e2. ok ([], e2))))
values_after arg tail spelling n e =
    and_then-Holds Any (NoLonger tail) (shift e) _ (shift-Holds e) (λ e1 u.
      and_then-Holds Any (NoLonger tail) (take_values arg spelling n e1) _
        (take_values-Holds arg spelling n e1) (λ e2 v. omega arith))

dispatch_short-Holds :
    (arg : Argument) (tail spelling : Bytes) (e : Engine)
    → Holds (NoLonger tail) (dispatch_short arg tail spelling e)
dispatch_short-Holds arg tail spelling e = elim (Bool-cases (arg.nargs == 0)) [
  | inl switch ↦
      rw (dispatch_short, switch)
        (and_then-Holds Any (NoLonger tail) (act arg [] spelling e) _ (act-Holds arg [] spelling e)
          (λ e1 u. omega arith))
  | inr values ↦ elim (Bool-cases (arg.nargs == 1)) [
    | inl one ↦ elim (words_cases tail) [
      | inl n ↦ rw (dispatch_short, values, one, n) (values_after arg [] spelling 1 e)
      | inr (c, rest, n) ↦
          rw (dispatch_short, values, one, n)
            (and_then-Holds Any (NoLonger (c ∷ rest)) (act arg (c ∷ rest) spelling e) _
              (act-Holds arg (c ∷ rest) spelling e)
              (λ e1 u.
                and_then-Holds Any (NoLonger (c ∷ rest)) (shift e1) _ (shift-Holds e1)
                  (λ e2 v. omega arith)))
    ]
    | inr more ↦ elim (words_cases tail) [
      | inl n ↦ rw (dispatch_short, values, more, n) (values_after arg [] spelling arg.nargs e)
      | inr (c, rest, n) ↦ rw (dispatch_short, values, more, n) (λ h. cc h)
    ]
  ]
]

-- What is left of a group, where an argument was found, is shorter than it was.
abbrev Taken : Bytes → Option (Bytes × Engine) → Type 0
Taken tail none = Unit
Taken tail (some r) = length r.0 < length tail

try_match_short-nil : (spellings : List Bytes) → try_match_short spellings [] ≡ []
try_match_short-nil [] = refl
try_match_short-nil ([] ∷ spellings) = refl
try_match_short-nil ((c ∷ cand) ∷ spellings) = try_match_short-nil spellings

found_tail :
    (spellings : List Bytes) (tail : Bytes) (c : ℕ) (rest : Bytes)
    → try_match_short spellings tail ≡ c ∷ rest
    → length (drop (length (c ∷ rest)) tail) < length tail
found_tail spellings [] c rest h = cc (try_match_short-nil spellings, h)
found_tail spellings (t ∷ tail) c rest h = omega (arith, length-drop (length rest) tail)

try_parse_short_1-Holds :
    (args : List Argument) (tail : Bytes) (e : Engine)
    → Holds (Taken tail) (try_parse_short_1 args tail e)
try_parse_short_1-Holds [] tail e = tt
try_parse_short_1-Holds (cand ∷ args) tail e =
    elim (words_cases (try_match_short cand.short_spellings tail)) [
      | inl n ↦ rw (try_parse_short_1, n) (try_parse_short_1-Holds args tail e)
      | inr (c, rest, n) ↦
          let less = found_tail cand.short_spellings tail c rest n in
          let left = drop (length (c ∷ rest)) tail in
          rw (try_parse_short_1, n)
            (and_then-Holds Any (Taken tail) (see cand e) _ (see-Holds cand e) (λ e1 u.
              and_then-Holds (NoLonger left) (Taken tail)
                (dispatch_short cand left (codes "-" ++ c ∷ rest) e1) _
                (dispatch_short-Holds cand left (codes "-" ++ c ∷ rest) e1)
                (λ r k. omega (arith, less, k))))
    ]

found_cases :
    {B : Type 0} (Q : B → Type 0) (tail : Bytes) (r : Option (Bytes × Engine)) (m : Result B)
    → (f : Bytes × Engine → Result B) → Taken tail r
    → Holds Q m
    → ((r1 : Bytes × Engine) → length r1.0 < length tail → Holds Q (f r1))
    → Holds Q (elim r [ none ↦ m | some r1 ↦ f r1 ])
found_cases Q tail none m f k h g = h
found_cases Q tail (some r1) m f k h g = g r1 k

rest_cases :
    {B : Type 0} (Q : B → Type 0) (tail : Bytes) (m : Result B) (f : ℕ → Bytes → Result B)
    → Holds Q m
    → ((c : ℕ) (rest : Bytes) → tail ≡ c ∷ rest → Holds Q (f c rest))
    → Holds Q (elim tail [ [] ↦ m | c ∷ rest ↦ f c rest ])
rest_cases Q [] m f h g = h
rest_cases Q (c ∷ rest) m f h g = g c rest refl

short_in_chain-Holds :
    (chain : List Parser) (tail : Bytes) (e : Engine)
    → Holds (Taken tail) (short_in_chain chain tail e)
short_in_chain-Holds [] tail e = tt
short_in_chain-Holds (argset ∷ parents) tail e =
    and_then-Holds (Taken tail) (Taken tail) (try_parse_short_1 (arguments argset) tail e) _
      (try_parse_short_1-Holds (arguments argset) tail e)
      (λ r k.
        found_cases (Taken tail) tail r _ _ k (short_in_chain-Holds parents tail e)
          (λ r1 less. less))

short_group-Holds :
    (fuel : ℕ) (tail : Bytes) (e : Engine)
    → length tail < fuel
    → Holds Any (short_group fuel tail e)
short_group-Holds zero tail e h = ground (arith)
short_group-Holds (suc fuel) tail e h =
    and_then-Holds (Taken tail) Any (short_in_chain e.chain tail e) _
      (short_in_chain-Holds e.chain tail e)
      (λ r k. found_cases Any tail r _ _ k tt (λ r1 less. rest_cases Any r1.0 _ _ tt (λ c rest is.
        short_group-Holds fuel (c ∷ rest) r1.1 (omega (arith, h, less, ap length is)))))

-- What `try_parse_short` throws is an exception of the source: it is not out of rounds.
try_parse_short-Holds : (tail : Bytes) (e : Engine) → Holds Any (try_parse_short tail e)
unfolding try_parse_short
try_parse_short-Holds tail e = elim (Bool-cases (bytes_eq tail (codes "h"))) [
  | inl help ↦ rw (try_parse_short, help) (λ h. cc h)
  | inr group ↦
      rw (try_parse_short, group) (short_group-Holds (suc (length tail)) tail e (omega arith))
]
