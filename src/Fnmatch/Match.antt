-- ===== src/Fnmatch/Match.antt =====
-- The matcher decides what a pattern means in terms of concatenation.
use mathlib.Core.Path.{subst}
use bpt.Prelude.{
  ℕ, Bool, true, [], ◌∷◌, ◌++◌, ◌≡◌, ◌↔◌, inl, inr, refl, sym, ap, ◌∙◌, arith, length, drop,
  length-append, drop-append, Elem, Bytes, is_prefix, Bool-cases,
}
use bpt.Text.Find.{is_prefix-append, append-drop_of_is_prefix}
use bpt.Fnmatch.{
  star, any_char, oneof, lit, Pattern, mem_byte, match_star, match_any_char, match_oneof, match_lit,
  match,
}

-- The texts that a pattern stands for.
abbrev pub Matches : Pattern → Bytes → Type 0
Matches [] s = s ≡ []
Matches (star ∷ p) s = (a : Bytes) × (b : Bytes) × (s ≡ a ++ b) × Matches p b
Matches (any_char ∷ p) s = (c : ℕ) × (t : Bytes) × (s ≡ c ∷ t) × Matches p t
Matches (oneof chars ∷ p) s = (c : ℕ) × (t : Bytes) × (s ≡ c ∷ t) × Elem c chars × Matches p t
Matches (lit l ∷ p) s = (t : Bytes) × (s ≡ l ++ t) × Matches p t

mem_byte_iff : (c : ℕ) (s : Bytes) → (mem_byte c s ≡ true) ↔ Elem c s
mem_byte_iff c [] = (λ h. cc, λ m. absurd m)
mem_byte_iff c (x ∷ s) = ground (arith, mem_byte_iff c s)

tail_eq : {c x : ℕ} {s t : Bytes} → c ∷ s ≡ x ∷ t → s ≡ t
tail_eq e = cc

nil_of_append : (a b : Bytes) → a ++ b ≡ [] → b ≡ []
nil_of_append [] b e = e
nil_of_append (c ∷ a) b e = cc

star_back :
    (next : Bytes → Bool) (c : ℕ) (s : Bytes)
    → ((a b : Bytes) → s ≡ a ++ b → next b ≡ true → match_star next s ≡ true)
    → (a : Bytes) × (b : Bytes) × (c ∷ s ≡ a ++ b) × (next b ≡ true)
    → match_star next (c ∷ s) ≡ true
star_back next c s rest ([], b, e, k) = ground (arith, ap next e)
star_back next c s rest (x ∷ a, b, e, k) = ground (arith, rest a b (tail_eq e) k)

match_star_iff :
    (next : Bytes → Bool) (s : Bytes)
    → (match_star next s ≡ true) ↔ ((a : Bytes) × (b : Bytes) × (s ≡ a ++ b) × (next b ≡ true))
match_star_iff next [] = (
  λ h. ([], [], refl, h),
  λ (a, b, e, h). subst (λ t. next t ≡ true) (nil_of_append a b (sym e)) h,
)
match_star_iff next (c ∷ s) = (
  λ h. elim (Bool-cases (next (c ∷ s))) [
    | inl here ↦ ([], c ∷ s, refl, here)
    | inr later ↦
        let (a, b, e, k) = (match_star_iff next s).0 (ground arith) in
        (c ∷ a, b, ap (λ t. c ∷ t) e, k)
  ],
  star_back next c s (λ a b e k. (match_star_iff next s).1 (a, b, e, k)),
)

match_lit_iff :
    (l : Bytes) (next : Bytes → Bool) (s : Bytes)
    → (match_lit l next s ≡ true) ↔ ((t : Bytes) × (s ≡ l ++ t) × (next t ≡ true))
match_lit_iff l next s = (
  λ h. elim (Bool-cases (is_prefix l s)) [
    | inl pre ↦ (drop (length l) s, sym (append-drop_of_is_prefix l s pre), ground arith)
    | inr not_pre ↦ ground arith
  ],
  λ (t, e, k).
      rw (e, match_lit, is_prefix-append l t, drop-append l t) (ground (arith, length-append l t)),
)

match_any_char_iff :
    (next : Bytes → Bool) (s : Bytes)
    → (match_any_char next s ≡ true) ↔ ((c : ℕ) × (t : Bytes) × (s ≡ c ∷ t) × (next t ≡ true))
match_any_char_iff next [] = (λ h. cc, λ (c, t, e, k). cc)
match_any_char_iff next (x ∷ s) = (λ h. (x, s, refl, h), λ (c, t, e, k). ap next (tail_eq e) ∙ k)

match_oneof_iff :
    (chars : Bytes) (next : Bytes → Bool) (s : Bytes)
    → (match_oneof chars next s ≡ true)
      ↔ ((c : ℕ) × (t : Bytes) × (s ≡ c ∷ t) × Elem c chars × (next t ≡ true))
match_oneof_iff chars next [] = (λ h. cc, λ (c, t, e, m, k). cc)
match_oneof_iff chars next (x ∷ s) = (
  λ h. (x, s, refl, (mem_byte_iff x chars).0 (ground arith), ground arith),
  λ (c, t, e, m, k).
      let same : x ≡ c = cc in
      rw ((mem_byte_iff x chars).1 (subst (λ y. Elem y chars) (sym same) m))
        (ap next (tail_eq e) ∙ k),
)

-- `match` answers true exactly on the texts that the pattern stands for.
pub match_iff : (p : Pattern) (s : Bytes) → (match p s ≡ true) ↔ Matches p s
unfolding match
match_iff [] [] = (λ _. refl, λ _. refl)
match_iff [] (c ∷ s) = (λ h. cc, λ h. cc)
match_iff (star ∷ p) s =
    let (into, back) = match_star_iff (match p) s in
    (
      λ h. let (a, b, e, k) = into h in (a, b, e, (match_iff p b).0 k),
      λ (a, b, e, m). back (a, b, e, (match_iff p b).1 m),
    )
match_iff (any_char ∷ p) s =
    let (into, back) = match_any_char_iff (match p) s in
    (
      λ h. let (c, t, e, k) = into h in (c, t, e, (match_iff p t).0 k),
      λ (c, t, e, m). back (c, t, e, (match_iff p t).1 m),
    )
match_iff (oneof chars ∷ p) s =
    let (into, back) = match_oneof_iff chars (match p) s in
    (
      λ h. let (c, t, e, here, k) = into h in (c, t, e, here, (match_iff p t).0 k),
      λ (c, t, e, here, m). back (c, t, e, here, (match_iff p t).1 m),
    )
match_iff (lit l ∷ p) s =
    let (into, back) = match_lit_iff l (match p) s in
    (
      λ h. let (t, e, k) = into h in (t, e, (match_iff p t).0 k),
      λ (t, e, m). back (t, e, (match_iff p t).1 m),
    )
