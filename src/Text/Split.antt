-- ===== src/Text/Split.antt =====
-- `split`, `replace` and `joinstr` of src/bpt/util/string.hpp: the loops end, cutting a text at a
-- separator and joining the pieces gives the text back, and `replace` is the join of the pieces.
use mathlib.Core.Option
use bpt.Prelude.{
  if◌then◌else◌, ◌==◌, sym, ℕ, zero, suc, ◌<◌, ◌≡◌, ◌≢◌, inl, inr, refl, ap, ◌∙◌, true, false, none,
  some, List, [], ◌∷◌, ◌++◌, arith, length, take, drop, Bytes, is_prefix, Option-cases,
  append_assoc, All,
}
use bpt.Text.{find, contains, split_from, split, replace_from, replace, joinstr}
use bpt.Text.Find.{find_cut, length-after_find}

joinstr-cons :
    (sep p : Bytes) (ps : List Bytes)
    → ps ≢ []
    → joinstr sep (p ∷ ps) ≡ p ++ (sep ++ joinstr sep ps)
unfolding joinstr
joinstr-cons sep p [] h = absurd (h refl)
joinstr-cons sep p (q ∷ ps) h = refl

is_prefix-take : (key s : Bytes) (n : ℕ) → is_prefix key (take n s) ≡ true → is_prefix key s ≡ true
is_prefix-take [] s n h = refl
is_prefix-take (k ∷ key) s zero h = ground arith
is_prefix-take (k ∷ key) [] (suc n) h = ground arith
is_prefix-take (k ∷ key) (c ∷ s) (suc n) h = ground (arith, is_prefix-take key s n)

-- What stands before the first place of a key does not hold the key.
find-take :
    (k : ℕ) (key s : Bytes) (n : ℕ) → find (k ∷ key) s ≡ some n → find (k ∷ key) (take n s) ≡ none
find-take k key s zero h = refl
find-take k key [] (suc n) h = ground arith
find-take k key (c ∷ s) (suc n) h =
    ground (arith, find-take k key s n, is_prefix-take (k ∷ key) (c ∷ s) (suc n))

module _ (k : ℕ) (key : Bytes) where
  abbrev sep : Bytes
  sep = k ∷ key

  -- Pieces that hold no separator and that it joins to the text.
  pub record IsSplit (s : Bytes) (ps : List Bytes) : Type 0 where
    pub joined : joinstr sep ps ≡ s
    pub nonempty : ps ≢ []
    pub apart : All (λ p. contains p sep ≡ false) ps

  IsSplit-last : (s : Bytes) → find sep s ≡ none → IsSplit s (s ∷ [])
  unfolding joinstr contains
  IsSplit-last s h = record { joined = refl; nonempty = λ e. cc; apart = (rw (contains, h), tt) }

  IsSplit-cons :
      (s : Bytes) (n : ℕ) (ps : List Bytes)
      → find sep s ≡ some n
      → IsSplit (drop (length sep) (drop n s)) ps
      → IsSplit s (take n s ∷ ps)
  unfolding contains
  IsSplit-cons s n ps h i = record {
    joined = joinstr-cons sep (take n s) ps i.nonempty ∙ rw i.joined (find_cut sep s n h);
    nonempty = λ e. cc;
    apart = (rw (contains, find-take k key s n h), i.apart);
  }

  split_from_lem :
      (fuel : ℕ) (s : Bytes)
      → length s < fuel
      → (ps : List Bytes) × (split_from fuel sep s ≡ some ps) × IsSplit s ps
  unfolding split_from
  split_from_lem zero s h = absurd (omega arith)
  split_from_lem (suc fuel) s h = elim (Option-cases (find sep s)) [
    | inl none_left ↦ (s ∷ [], rw (split_from, none_left), IsSplit-last s none_left)
    | inr (n, found) ↦
        let (ps, e, i) =
          split_from_lem fuel (drop (length sep) (drop n s))
            (omega (arith, length-after_find k key s n found)) in
        (take n s ∷ ps, rw (split_from, found, e), IsSplit-cons s n ps found i)
  ]

  -- With a separator that is not empty `split` ends, and returns pieces that hold no separator and
  -- that `joinstr` puts together to the text.
  pub split_total : (s : Bytes) → (ps : List Bytes) × (split s sep ≡ some ps) × IsSplit s ps
  unfolding split
  split_total s = split_from_lem (suc (length s)) s (omega arith)

  split_from-ne-nil : (fuel : ℕ) (s : Bytes) → split_from fuel sep s ≢ some []
  unfolding split_from
  split_from-ne-nil zero s = ground arith
  split_from-ne-nil (suc fuel) s = ground arith

  replace_from_lem :
      (repl : Bytes) (fuel : ℕ) (ret s : Bytes) (ps : List Bytes)
      → split_from fuel sep s ≡ some ps
      → replace_from fuel sep repl ret s ≡ some (ret ++ joinstr repl ps)
  unfolding replace_from split_from joinstr
  replace_from_lem repl zero ret s ps h = ground arith
  replace_from_lem repl (suc fuel) ret s ps h = elim (Option-cases (find sep s)) [
    | inl none_left ↦ ground arith
    | inr (n, found) ↦
        let rest = drop (length sep) (drop n s) in
        elim (Option-cases (split_from fuel sep rest)) [
          | inl e ↦ ground arith
          | inr (qs, e) ↦
              let cut : ps ≡ take n s ∷ qs = ground arith in
              let more : qs ≢ [] = λ nil. split_from-ne-nil fuel rest (e ∙ ap some nil) in
              rw
                (
                  replace_from,
                  found,
                  replace_from_lem repl fuel _ rest qs e,
                  cut,
                  joinstr-cons repl (take n s) qs more,
                )
                (ap some (append_assoc (ret ++ take n s) repl _ ∙ append_assoc ret (take n s) _))
        ]
  ]

  -- `replace` is `split` at the key followed by `joinstr` with the replacement.
  pub replace-eq-joinstr :
      (s repl : Bytes) → replace s sep repl ≡ Option.map (joinstr repl) (split s sep)
  unfolding replace split
  replace-eq-joinstr s repl =
      let (ps, e, _) = split_from_lem (suc (length s)) s (omega arith) in
      rw e (replace_from_lem repl (suc (length s)) [] s ps e)

-- A text with each place of one character taken by a replacement.
abbrev pub substitute : ℕ → Bytes → Bytes → Bytes
substitute k repl [] = []
substitute k repl (c ∷ s) = if c == k then repl ++ substitute k repl s else c ∷ substitute k repl s

pub substitute-append :
    (k : ℕ) (repl a b : Bytes)
    → substitute k repl (a ++ b) ≡ substitute k repl a ++ substitute k repl b
substitute-append k repl [] b = refl
substitute-append k repl (c ∷ a) b = ground (
  arith,
  substitute-append k repl a b,
  append_assoc repl (substitute k repl a) (substitute k repl b),
)

substitute_absent : (k : ℕ) (repl s : Bytes) → contains s (k ∷ []) ≡ false → substitute k repl s ≡ s
unfolding contains
substitute_absent k repl [] h = refl
substitute_absent k repl (c ∷ s) h = ground (arith, substitute_absent k repl s)

substitute-joinstr :
    (k : ℕ) (repl : Bytes) (ps : List Bytes)
    → All (λ p. contains p (k ∷ []) ≡ false) ps
    → substitute k repl (joinstr (k ∷ []) ps) ≡ joinstr repl ps
unfolding joinstr
substitute-joinstr k repl [] h = refl
substitute-joinstr k repl (p ∷ []) h = substitute_absent k repl p h.0
substitute-joinstr k repl (p ∷ q ∷ ps) h = ground (
  arith,
  substitute-append k repl p (k ∷ joinstr (k ∷ []) (q ∷ ps)),
  substitute_absent k repl p,
  substitute-joinstr k repl (q ∷ ps) h.1,
)

-- A key of one character is replaced wherever it stands.
pub replace-single :
    (s : Bytes) (k : ℕ) (repl : Bytes) → replace s (k ∷ []) repl ≡ some (substitute k repl s)
replace-single s k repl =
    let (ps, e, i) = split_total k [] s in
    replace-eq-joinstr k [] s repl
    ∙ ap (Option.map (joinstr repl)) e
    ∙ ap some (sym (substitute-joinstr k repl ps i.apart))
    ∙ ap (λ t. some (substitute k repl t)) i.joined
