-- ===== src/Spdx/Solid.antt =====
-- Texts that begin and end bare, which the parser of SPDX expressions trims to themselves.
use mathlib.Core.List.{reverse, reverse-cons, reverse-append, reverse-reverse}
use bpt.Prelude.{
  ℕ, true, false, [], ◌∷◌, ◌++◌, ◌≡◌, ◌≢◌, refl, sym, ap, ◌∙◌, arith, Bytes, All, append_assoc,
}
use bpt.Text.{is_space, trim_view}
use bpt.Text.Trim.{Bare, Trimmed, trim_view_of_Trimmed}
use bpt.Spdx.{is_idstring_char}

pub record Solid (s : Bytes) : Type 0 where
  pub nonempty : s ≢ []
  pub trimmed : Trimmed s

Bare-left : (s t : Bytes) → s ≢ [] → Bare s → Bare (s ++ t)
Bare-left [] t n h = absurd (n refl)
Bare-left (c ∷ s) t n h = h

reverse_nonempty : (s : Bytes) → s ≢ [] → reverse s ≢ []
reverse_nonempty s n e = n (sym (reverse-reverse s) ∙ ap reverse e)

append_nonempty : (s t : Bytes) → s ≢ [] → s ++ t ≢ []
append_nonempty [] t n = absurd (n refl)
append_nonempty (c ∷ s) t n = λ e. cc

pub Solid-append : (s m t : Bytes) → Solid s → Solid t → Solid (s ++ (m ++ t))
Solid-append s m t h k = record {
  nonempty = append_nonempty s (m ++ t) h.nonempty;
  trimmed = (
    Bare-left s (m ++ t) h.nonempty h.trimmed.0,
    rw (← append_assoc s m t, reverse-append (s ++ m) t)
        (Bare-left (reverse t) (reverse (s ++ m)) (reverse_nonempty t k.nonempty) k.trimmed.1),
  );
}

pub trim_view-Solid : (s : Bytes) → Solid s → trim_view s ≡ s
trim_view-Solid s h = trim_view_of_Trimmed s h.trimmed

pub trim_view_blank : (s : Bytes) → Solid s → trim_view (b' ' ∷ s) ≡ s
unfolding trim_view
trim_view_blank s h = trim_view_of_Trimmed s h.trimmed

abbrev pub IsWord : Bytes → Type 0
IsWord s = All (λ c. is_idstring_char c ≡ true) s

pub bare_of_idstring_char : (c : ℕ) → is_idstring_char c ≡ true → is_space c ≡ false
bare_of_idstring_char c h = ground arith

abbrev pub NoSpace : Bytes → Type 0
NoSpace s = All (λ c. is_space c ≡ false) s

nospace_Bare : (s : Bytes) → NoSpace s → Bare s
nospace_Bare [] h = tt
nospace_Bare (c ∷ s) h = h.0

NoSpace-append : (s t : Bytes) → NoSpace s → NoSpace t → NoSpace (s ++ t)
NoSpace-append [] t h k = k
NoSpace-append (c ∷ s) t h k = (h.0, NoSpace-append s t h.1 k)

NoSpace-reverse : (s : Bytes) → NoSpace s → NoSpace (reverse s)
NoSpace-reverse [] h = tt
NoSpace-reverse (c ∷ s) h =
    rw (reverse-cons c s) (NoSpace-append (reverse s) (c ∷ []) (NoSpace-reverse s h.1) (h.0, tt))

pub Solid-nospace : (s : Bytes) → s ≢ [] → NoSpace s → Solid s
Solid-nospace s n h = record {
  nonempty = n;
  trimmed = (nospace_Bare s h, nospace_Bare (reverse s) (NoSpace-reverse s h));
}

word_NoSpace : (s : Bytes) → IsWord s → NoSpace s
word_NoSpace [] h = tt
word_NoSpace (c ∷ s) h = (bare_of_idstring_char c h.0, word_NoSpace s h.1)

pub Solid-word : (s : Bytes) → s ≢ [] → IsWord s → Solid s
Solid-word s n h = Solid-nospace s n (word_NoSpace s h)
