-- ===== src/Text/Find.antt =====
-- What `find`, `rfind` and the tests made of them say, in terms of concatenation.
use bpt.Prelude.{
  ℕ, zero, suc, ◌-◌, ◌≤◌, ◌<◌, ◌≡◌, ◌≢◌, ◌↔◌, inl, inr, refl, sym, ap, ◌∙◌, true, false, none, some,
  [], ◌∷◌, ◌++◌, arith, length, take, drop, length-append, length-drop, Bytes, is_prefix,
  Option-cases, ==_iff, append-nil,
}
use bpt.Text.{find, rfind, ends_with, starts_with, contains}

pub is_prefix-append : (key s : Bytes) → is_prefix key (key ++ s) ≡ true
is_prefix-append [] s = refl
is_prefix-append (k ∷ key) s = ground (arith, is_prefix-append key s)

pub append-drop_of_is_prefix :
    (key s : Bytes) → is_prefix key s ≡ true → key ++ drop (length key) s ≡ s
append-drop_of_is_prefix [] s h = refl
append-drop_of_is_prefix (k ∷ key) [] h = ground arith
append-drop_of_is_prefix (k ∷ key) (c ∷ s) h = ground (arith, append-drop_of_is_prefix key s)

-- A found position cuts the text into what stands before the key, the key, and the rest.
pub find_cut :
    (key s : Bytes) (n : ℕ)
    → find key s ≡ some n
    → take n s ++ (key ++ drop (length key) (drop n s)) ≡ s
find_cut key [] zero h = append-drop_of_is_prefix key [] (ground arith)
find_cut key [] (suc n) h = ground arith
find_cut key (c ∷ s) zero h = append-drop_of_is_prefix key (c ∷ s) (ground arith)
find_cut key (c ∷ s) (suc n) h = ap (λ t. c ∷ t) (find_cut key s n (ground arith))

-- At a text that begins with the key, `find` stops at once.
pub find-append : (key s : Bytes) → find key (key ++ s) ≡ some 0
find-append [] [] = refl
find-append [] (c ∷ s) = refl
find-append (k ∷ key) s = rw (is_prefix-append (k ∷ key) s)

-- A key that stands somewhere is found.
pub find_complete : (key a b : Bytes) → find key (a ++ (key ++ b)) ≢ none
find_complete key [] b = ground (arith, find-append key b)
find_complete key (c ∷ a) b = ground (arith, find_complete key a b)

length-drop-le : (n : ℕ) (s : Bytes) → length (drop n s) ≤ length s
length-drop-le n s = omega (arith, length-drop n s)

-- The suffix after a found separator that is not empty is shorter.
pub length-after_find :
    (k : ℕ) (key s : Bytes) (n : ℕ)
    → find (k ∷ key) s ≡ some n
    → length (drop (length (k ∷ key)) (drop n s)) < length s
length-after_find k key s n h =
    let cut = ap length (find_cut (k ∷ key) s n h) in
    omega (
      arith,
      cut,
      length-append (take n s) ((k ∷ key) ++ drop (length (k ∷ key)) (drop n s)),
      length-append (k ∷ key) (drop (length (k ∷ key)) (drop n s)),
    )

pub starts_with_iff :
    (s key : Bytes) → (starts_with s key ≡ true) ↔ ((rest : Bytes) × (s ≡ key ++ rest))
unfolding starts_with
starts_with_iff s key = (
  λ h. elim (Option-cases (find key s)) [
    | inl e ↦ ground arith
    | inr (zero, e) ↦ (drop (length key) s, sym (find_cut key s zero e))
    | inr (suc n, e) ↦ ground arith
  ],
  λ (rest, e). rw (e, starts_with, find-append key rest),
)

pub contains_iff :
    (s key : Bytes) → (contains s key ≡ true) ↔ ((a : Bytes) × (b : Bytes) × (s ≡ a ++ (key ++ b)))
unfolding contains
contains_iff s key = (
  λ h. elim (Option-cases (find key s)) [
    | inl e ↦ ground arith
    | inr (n, e) ↦ (take n s, drop (length key) (drop n s), sym (find_cut key s n e))
  ],
  λ (a, b, e). elim (Option-cases (find key s)) [
    | inl no_find ↦ absurd (find_complete key a b (rw (← e) no_find))
    | inr (n, found) ↦ rw (contains, found)
  ],
)

rfind_cut :
    (key s : Bytes) (n : ℕ)
    → rfind key s ≡ some n
    → take n s ++ (key ++ drop (length key) (drop n s)) ≡ s
rfind_cut key [] zero h = append-drop_of_is_prefix key [] (ground arith)
rfind_cut key [] (suc n) h = ground arith
rfind_cut key (c ∷ s) zero h = append-drop_of_is_prefix key (c ∷ s) (ground arith)
rfind_cut key (c ∷ s) (suc n) h = ap (λ t. c ∷ t) (rfind_cut key s n (ground arith))

is_prefix_short : (key s : Bytes) → length s < length key → is_prefix key s ≡ false
is_prefix_short [] s h = absurd (omega arith)
is_prefix_short (k ∷ key) [] h = refl
is_prefix_short (k ∷ key) (c ∷ s) h = ground (arith, is_prefix_short key s (omega arith))

rfind_short : (key s : Bytes) → length s < length key → rfind key s ≡ none
rfind_short key [] h = rw (is_prefix_short key [] h)
rfind_short key (c ∷ s) h = rw (rfind_short key s (omega arith), is_prefix_short key (c ∷ s) h)

-- The last place of a key that ends the text is that end.
rfind-append_last : (a key : Bytes) → rfind key (a ++ key) ≡ some (length a)
rfind-append_last [] [] = refl
rfind-append_last [] (k ∷ key) =
    ground (arith, rfind_short (k ∷ key) key (omega arith), is_prefix-append key [], append-nil key)
rfind-append_last (c ∷ a) key = rw (rfind-append_last a key)

length-take_of_drop : (n : ℕ) (s : Bytes) → n ≤ length s → length (take n s) ≡ n
length-take_of_drop zero s h = refl
length-take_of_drop (suc n) [] h = absurd (omega arith)
length-take_of_drop (suc n) (c ∷ s) h = ap suc (length-take_of_drop n s (omega arith))

eq_nil_of_length : (s : Bytes) → length s ≡ 0 → s ≡ []
eq_nil_of_length [] h = refl
eq_nil_of_length (c ∷ s) h = absurd (omega arith)

-- `ends_with` compares the last position of the key with the one where it would end the text.
ends_with_cut :
    (s key : Bytes) (n : ℕ) → rfind key s ≡ some n → n ≡ length s - length key → s ≡ take n s ++ key
ends_with_cut s key n h e =
    let rest = drop (length key) (drop n s) in
    let cut = rfind_cut key s n h in
    let short : length rest ≡ 0 = omega (
      arith,
      length-drop (length key) (drop n s),
      length-drop n s,
      ap length cut,
      length-append (take n s) (key ++ rest),
      length-append key rest,
    ) in
    let last : rest ≡ [] = eq_nil_of_length rest short in
    sym cut ∙ ap (λ r. take n s ++ (key ++ r)) last ∙ ap (λ k. take n s ++ k) (append-nil key)

pub ends_with_iff : (s key : Bytes) → (ends_with s key ≡ true) ↔ ((a : Bytes) × (s ≡ a ++ key))
unfolding ends_with
ends_with_iff s key = (
  λ h. elim (Option-cases (rfind key s)) [
    | inl e ↦ ground arith
    | inr (n, e) ↦ (take n s, ends_with_cut s key n e (ground arith))
  ],
  λ (a, e).
      rw (e, ends_with, rfind-append_last a key)
        ((==_iff _ _).1 (omega (arith, ap length e, length-append a key))),
)
