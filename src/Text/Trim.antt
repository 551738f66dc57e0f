-- ===== src/Text/Trim.antt =====
-- `trim_view` of src/bpt/util/string.hpp: what it cuts off, and the texts that it leaves alone.
use mathlib.Core.List.{reverse, reverse-cons, reverse-append, reverse-reverse}
use bpt.Prelude.{
  true, false, [], ◌∷◌, ◌++◌, ◌≡◌, inl, inr, refl, sym, ap, ◌∙◌, arith, Bytes, Bool-cases, All,
}
use bpt.Text.{is_space, skip_space, trim_view}

-- No blank stands first.
abbrev pub Bare : Bytes → Type 0
Bare [] = Unit
Bare (c ∷ s) = is_space c ≡ false

-- No blank stands first or last.
abbrev pub Trimmed : Bytes → Type 0
Trimmed s = Bare s × Bare (reverse s)

abbrev pub AllSpace : Bytes → Type 0
AllSpace s = All (λ c. is_space c ≡ true) s

skip_space-Bare : (s : Bytes) → Bare (skip_space s)
skip_space-Bare [] = tt
skip_space-Bare (c ∷ s) = ground (arith, skip_space-Bare s)

pub skip_space_of_Bare : (s : Bytes) → Bare s → skip_space s ≡ s
skip_space_of_Bare [] h = refl
skip_space_of_Bare (c ∷ s) h = ground arith

skip_space_cut : (s : Bytes) → (a : Bytes) × (s ≡ a ++ skip_space s) × AllSpace a
skip_space_cut [] = ([], refl, tt)
skip_space_cut (c ∷ s) = elim (Bool-cases (is_space c)) [
  | inl blank ↦
      let (a, e, h) = skip_space_cut s in (c ∷ a, rw (blank) (ap (λ t. c ∷ t) e), (blank, h))
  | inr bare ↦ ([], rw (bare), tt)
]

AllSpace-append : (s t : Bytes) → AllSpace s → AllSpace t → AllSpace (s ++ t)
AllSpace-append [] t h k = k
AllSpace-append (c ∷ s) t h k = (h.0, AllSpace-append s t h.1 k)

AllSpace-reverse : (s : Bytes) → AllSpace s → AllSpace (reverse s)
AllSpace-reverse [] h = tt
AllSpace-reverse (c ∷ s) h =
    rw (reverse-cons c s) (AllSpace-append (reverse s) (c ∷ []) (AllSpace-reverse s h.1) (h.0, tt))

-- A text that begins bare does so after its end was cut off.
Bare-prefix : (s t : Bytes) → Bare (s ++ t) → Bare s
Bare-prefix [] t h = tt
Bare-prefix (c ∷ s) t h = h

-- `trim_view` cuts blanks off both ends, and no blank stands at an end of what it leaves.
pub trim_view_cut :
    (s : Bytes)
    → ((a : Bytes) × (b : Bytes) × (s ≡ a ++ (trim_view s ++ b)) × AllSpace a × AllSpace b)
      × Trimmed (trim_view s)
unfolding trim_view
trim_view_cut s =
    let t = skip_space s in
    let (a, front, blank) = skip_space_cut s in
    let (c, back, blanks) = skip_space_cut (reverse t) in
    let u = reverse (skip_space (reverse t)) in
    let whole : t ≡ u ++ reverse c =
      sym (reverse-reverse t) ∙ ap reverse back ∙ reverse-append c (skip_space (reverse t)) in
    (
      (a, reverse c, front ∙ ap (λ x. a ++ x) whole, blank, AllSpace-reverse c blanks),
      (
        Bare-prefix u (reverse c) (rw (← whole) (skip_space-Bare s)),
        rw (reverse-reverse (skip_space (reverse t))) (skip_space-Bare (reverse t)),
      ),
    )

pub trim_view_of_Trimmed : (s : Bytes) → Trimmed s → trim_view s ≡ s
unfolding trim_view
trim_view_of_Trimmed s h =
    rw (skip_space_of_Bare s h.0, skip_space_of_Bare (reverse s) h.1, reverse-reverse s)
