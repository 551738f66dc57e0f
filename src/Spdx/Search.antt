-- ===== src/Spdx/Search.antt =====
-- The binary search of find_with_id in src/bpt/project/spdx.cpp, beside a search from the start.
use bpt.Prelude.{
  ℕ, zero, suc, ◌/◌, ◌≤◌, true, false, Option, none, some, List, [], ◌∷◌, ◌≡◌, ◌⊎◌, inl, inr, refl,
  sym, ap, ◌∙◌, arith, if◌then◌else◌, length, take, drop, Bytes, All, Bool-cases, length-drop,
}
use bpt.Spdx.{Info, bytes_lt, halve, lower_bound}

abbrev first_not_less : List Info → Bytes → Option Info
first_not_less [] id = none
first_not_less (i ∷ table) id =
    let rest = first_not_less table id in if bytes_lt i.id id then rest else some i

abbrev or_else : Option Info → Option Info → Option Info
or_else none o = o
or_else (some i) o = some i

-- The entries that are less come before those that are not, as in a sorted table.
abbrev IsPartitioned : Bytes → List Info → Type 0
IsPartitioned id [] = Unit
IsPartitioned id (i ∷ table) =
    ((bytes_lt i.id id ≡ true) × IsPartitioned id table)
    ⊎ All (λ j. bytes_lt j.id id ≡ false) (i ∷ table)

none_less :
    (id : Bytes) (table : List Info)
    → All (λ j. bytes_lt j.id id ≡ false) table
    → IsPartitioned id table
none_less id [] a = tt
none_less id (i ∷ table) a = inr a

All-take : (P : Info → Type 0) (n : ℕ) (range : List Info) → All P range → All P (take n range)
All-take P zero range a = tt
All-take P (suc n) [] a = tt
All-take P (suc n) (i ∷ range) (k, a) = (k, All-take P n range a)

All-drop : (P : Info → Type 0) (n : ℕ) (range : List Info) → All P range → All P (drop n range)
All-drop P zero range a = a
All-drop P (suc n) [] a = tt
All-drop P (suc n) (i ∷ range) (k, a) = All-drop P n range a

lower_half :
    (n : ℕ) (id : Bytes) (range : List Info)
    → IsPartitioned id range
    → IsPartitioned id (take n range)
lower_half zero id range p = tt
lower_half (suc n) id [] p = tt
lower_half (suc n) id (i ∷ range) (inl (l, p)) = inl (l, lower_half n id range p)
lower_half (suc n) id (i ∷ range) (inr (l, a)) =
    inr (l, All-take (λ j. bytes_lt j.id id ≡ false) n range a)

upper_half :
    (n : ℕ) (id : Bytes) (range : List Info) (middle : Info) (upper : List Info)
    → IsPartitioned id range
    → drop n range ≡ middle ∷ upper
    → bytes_lt middle.id id ≡ true
    → IsPartitioned id upper × (first_not_less range id ≡ first_not_less upper id)
upper_half zero id [] middle upper p e l = cc e
upper_half zero id (i ∷ range) middle upper (inl (k, p)) e l =
    let rest : range ≡ upper = cc e in (rw (← rest) p, rw (first_not_less, k, rest))
upper_half zero id (i ∷ range) middle upper (inr (k, a)) e l =
    let same : i ≡ middle = cc e in let k' = rw (same) at k in cc (k', l)
upper_half (suc n) id [] middle upper p e l = cc e
upper_half (suc n) id (i ∷ range) middle upper (inl (k, p)) e l =
    let (q, f) = upper_half n id range middle upper p e l in (q, rw (first_not_less, k) f)
upper_half (suc n) id (i ∷ range) middle upper (inr (k, a)) e l =
    let at_drop : All (λ j. bytes_lt j.id id ≡ false) (drop n range) =
      All-drop (λ j. bytes_lt j.id id ≡ false) n range a in
    let at_middle = rw (e) at at_drop in let k' = at_middle.0 in cc (k', l)

middle_found :
    (n : ℕ) (id : Bytes) (range : List Info) (middle : Info) (upper : List Info)
    → drop n range ≡ middle ∷ upper
    → bytes_lt middle.id id ≡ false
    → first_not_less range id ≡ or_else (first_not_less (take n range) id) (some middle)
middle_found zero id range middle upper e l = rw (e, first_not_less, l)
middle_found (suc n) id [] middle upper e l = cc e
middle_found (suc n) id (i ∷ range) middle upper e l = elim (Bool-cases (bytes_lt i.id id)) [
  | inl k ↦ rw (first_not_less, take, k) (middle_found n id range middle upper e l)
  | inr k ↦ rw (first_not_less, take, k)
]

table_cases :
    (table : List Info) → (table ≡ []) ⊎ ((i : Info) × (rest : List Info) × (table ≡ i ∷ rest))
table_cases [] = inl refl
table_cases (i ∷ rest) = inr (i, rest, refl)

length-take : (n : ℕ) (range : List Info) → length (take n range) ≤ n
length-take zero range = omega arith
length-take (suc n) [] = omega arith
length-take (suc n) (i ∷ range) = omega (arith, length-take n range)

or_else-some :
    (o : Option Info) (i : Info) (found : Option Info)
    → or_else (or_else o (some i)) found ≡ or_else o (some i)
or_else-some none i found = refl
or_else-some (some j) i found = refl

halve-first_not_less :
    (rounds : ℕ) (range : List Info) (found : Option Info) (id : Bytes)
    → length range ≤ rounds
    → IsPartitioned id range
    → halve rounds range found id ≡ or_else (first_not_less range id) found
halve-first_not_less zero [] found id h p = refl
halve-first_not_less zero (i ∷ range) found id h p = ground (arith)
halve-first_not_less (suc rounds) range found id h p =
    let n = length range / 2 in
    let left = length-drop n range in
    elim (table_cases (drop n range)) [
      | inl e ↦ elim (table_cases range) [
        | inl nil ↦ rw (halve, nil, take)
        | inr (i, rest, more) ↦ ground (arith, left, ap length e, ap length more)
      ]
      | inr (middle, upper, e) ↦ elim (Bool-cases (bytes_lt middle.id id)) [
        | inl l ↦
            let (q, f) = upper_half n id range middle upper p e l in
            rw (halve, e, l, f)
              (halve-first_not_less rounds upper found id (omega (arith, h, left, ap length e)) q)
        | inr l ↦
            rw (halve, e, l, middle_found n id range middle upper e l)
              (halve-first_not_less rounds (take n range) (some middle) id
                  (omega (arith, h, length-take n range, left, ap length e))
                  (lower_half n id range p)
                ∙ sym (or_else-some (first_not_less (take n range) id) middle found))
      ]
    ]

or_else-none : (o : Option Info) → or_else o none ≡ o
or_else-none none = refl
or_else-none (some i) = refl

-- On a table in which the entries that are less come first, `lower_bound` gives the first that is
-- not less.
lower_bound-first_not_less :
    (table : List Info) (id : Bytes)
    → IsPartitioned id table
    → lower_bound table id ≡ first_not_less table id
lower_bound-first_not_less table id p =
    halve-first_not_less (length table) table none id (omega arith) p
    ∙ or_else-none (first_not_less table id)
