-- ===== src/Glob/Matching.antt =====
-- What a glob matches, in terms of concatenation.
use bpt.Prelude.{
  Bool, true, Option, none, some, List, [], ◌∷◌, ◌++◌, ◌≡◌, ◌≢◌, ◌↔◌, inl, inr, refl, sym, ap,
  arith, Bytes, Bool-cases,
}
use bpt.Fnmatch.{Pattern, match}
use bpt.Fnmatch.Match.{Matches, match_iff}
use bpt.Glob.{Items, any_suffix, check_matches}

-- The paths that a glob stands for: `**` at its end is one element or more, elsewhere any number
-- of elements, but what follows it matches one at least.
abbrev pub GlobMatches : Items → List Bytes → Type 0
GlobMatches [] es = es ≡ []
GlobMatches (some p ∷ items) es =
    (e : Bytes) × (rest : List Bytes) × (es ≡ e ∷ rest) × Matches p e × GlobMatches items rest
GlobMatches (none ∷ []) es = es ≢ []
GlobMatches (none ∷ i ∷ items) es =
    (a : List Bytes) × (b : List Bytes) × (es ≡ a ++ b) × GlobMatches (i ∷ items) b

nil_of_append : (a b : List Bytes) → a ++ b ≡ [] → b ≡ []
nil_of_append [] b e = e
nil_of_append (c ∷ a) b e = cc

abbrev Suffix : (List Bytes → Bool) → List Bytes → Type 0
Suffix check es = (a : List Bytes) × (b : List Bytes) × (es ≡ a ++ b) × (b ≢ []) × (check b ≡ true)

any_suffix_back :
    (check : List Bytes → Bool) (e : Bytes) (es : List Bytes)
    → (Suffix check es → any_suffix check es ≡ true)
    → Suffix check (e ∷ es)
    → any_suffix check (e ∷ es) ≡ true
any_suffix_back check e es rest ([], b, q, ne, k) = ground (arith, ap check q)
any_suffix_back check e es rest (x ∷ a, b, q, ne, k) =
    let tail : es ≡ a ++ b = cc in ground (arith, rest (a, b, tail, ne, k))

any_suffix_iff :
    (check : List Bytes → Bool) (es : List Bytes) → (any_suffix check es ≡ true) ↔ Suffix check es
any_suffix_iff check [] = (λ h. cc, λ (a, b, q, ne, k). absurd (ne (nil_of_append a b (sym q))))
any_suffix_iff check (e ∷ es) = (
  λ h. elim (Bool-cases (check (e ∷ es))) [
    | inl here ↦ ([], e ∷ es, refl, (λ n. cc), here)
    | inr later ↦
        let (a, b, q, ne, k) = (any_suffix_iff check es).0 (ground arith) in
        (e ∷ a, b, ap (λ t. e ∷ t) q, ne, k)
  ],
  any_suffix_back check e es (any_suffix_iff check es).1,
)

nonempty_tail :
    (i : Option Pattern) (items : Items) (b : List Bytes)
    → check_matches (i ∷ items) b ≡ true
    → b ≢ []
unfolding check_matches
nonempty_tail i items [] h = cc
nonempty_tail i items (e ∷ es) h = λ n. cc

-- `check_matches` answers true exactly on the paths that the glob stands for.
pub check_matches_iff :
    (items : Items) (es : List Bytes) → (check_matches items es ≡ true) ↔ GlobMatches items es
unfolding check_matches
check_matches_iff [] [] = (λ _. refl, λ _. refl)
check_matches_iff [] (e ∷ es) = (λ h. cc, λ h. cc)
check_matches_iff (some p ∷ items) [] = (λ h. cc, λ (e, rest, q, m, k). cc)
check_matches_iff (some p ∷ items) (e ∷ es) = (
  λ h. elim (Bool-cases (match p e)) [
    | inl here ↦
        (e, es, refl, (match_iff p e).0 here, (check_matches_iff items es).0 (ground arith))
    | inr fails ↦ ground arith
  ],
  λ (x, rest, q, m, k).
      let head : e ≡ x = cc in
      let tail : es ≡ rest = cc in
      rw (ap (match p) head, (match_iff p x).1 m, tail) ((check_matches_iff items rest).1 k),
)
check_matches_iff (none ∷ []) [] = (λ h. cc, λ n. absurd (n refl))
check_matches_iff (none ∷ []) (e ∷ es) = (λ _ n. cc, λ _. refl)
check_matches_iff (none ∷ i ∷ items) [] = (
  λ h. cc,
  λ (a, b, q, k).
      absurd (
        nonempty_tail i items b ((check_matches_iff (i ∷ items) b).1 k)
          (nil_of_append a b (sym q))),
)
check_matches_iff (none ∷ i ∷ items) (e ∷ es) = (
  λ h.
      let (a, b, q, ne, k) = (any_suffix_iff (check_matches (i ∷ items)) (e ∷ es)).0 h in
      (a, b, q, (check_matches_iff (i ∷ items) b).0 k),
  λ (a, b, q, m).
      let k = (check_matches_iff (i ∷ items) b).1 m in
      (any_suffix_iff (check_matches (i ∷ items)) (e ∷ es)).1
        (a, b, q, nonempty_tail i items b k, k),
)
