-- ===== src/Spdx/Print.antt =====
-- Printed SPDX expressions are parsed back.
use bpt.Prelude.{
  ℕ, false, some, [], ◌∷◌, ◌++◌, ◌≡◌, ◌≢◌, ◌⊎◌, inl, inr, refl, ap, ◌∙◌, arith, drop-append,
  append_assoc, append-nil, Bytes, All, bytes_eq, codes,
}
use bpt.Text.{trim_view}
use bpt.Spdx.{
  Info, Tables, is_idstring_char, id_prefix, first_token, next_token, find_with_id, Simple, Expr,
  just_license_id, license_id_plus, simple, and_license, or_license, paren_grouped, with_exception,
  ok, simple_rest, parse_simple, simple_to_string, to_string,
}
use bpt.Spdx.Solid.{
  Solid, Solid-append, trim_view-Solid, trim_view_blank, IsWord, NoSpace, Solid-nospace, Solid-word,
}

-- A license that the table holds under its identifier, which is a word.
pub record IsLicense (tables : Tables) (i : Info) : Type 0 where
  pub known : find_with_id tables.licenses i.id ≡ some i
  pub nonempty : i.id ≢ []
  pub word : IsWord i.id

abbrev pub license_of : Simple → Info
license_of (just_license_id i) = i
license_of (license_id_plus i) = i

-- The expressions that the grammar of the parser can give, without exceptions: the left side of
-- an operator is a license.
abbrev pub Printable : Tables → Expr → Type 0
Printable tables (simple s) = IsLicense tables (license_of s)
Printable tables (and_license (simple s) r) = IsLicense tables (license_of s) × Printable tables r
Printable tables (or_license (simple s) r) = IsLicense tables (license_of s) × Printable tables r
Printable tables (paren_grouped e) = Printable tables e
Printable tables e = ⊥

-- What may stand behind a printed expression: closing parentheses.
abbrev pub Closers : Bytes → Type 0
Closers rest = All (λ c. c ≡ b')') rest

-- A word ends before `t`.
abbrev Breaks : Bytes → Type 0
Breaks [] = Unit
Breaks (c ∷ t) = is_idstring_char c ≡ false

id_prefix_word : (s t : Bytes) → IsWord s → Breaks t → id_prefix (s ++ t) ≡ s
id_prefix_word [] [] h k = refl
id_prefix_word [] (c ∷ t) h k = rw (k)
id_prefix_word (c ∷ s) t h k = ground (arith, h.0, id_prefix_word s t h.1 k)

first_token_word : (s t : Bytes) → s ≢ [] → IsWord s → Breaks t → first_token (s ++ t) ≡ s
first_token_word [] t n h k = absurd (n refl)
first_token_word (c ∷ s) t n h k = ground (arith, h.0, id_prefix_word s t h.1 k)

pub next_token_word :
    (s t : Bytes) → s ≢ [] → IsWord s → Breaks t → Solid (s ++ t) → next_token (s ++ t) ≡ s
unfolding next_token
next_token_word s t n h k solid =
    rw (next_token, trim_view-Solid (s ++ t) solid) (first_token_word s t n h k)

pub word_not :
    (s : Bytes) (c : ℕ) → IsWord s → is_idstring_char c ≡ false → bytes_eq s (c ∷ []) ≡ false
word_not [] c h k = refl
word_not (x ∷ s) c h k = ground (arith, h.0, k)

Closers-NoSpace : (rest : Bytes) → Closers rest → NoSpace rest
Closers-NoSpace [] h = tt
Closers-NoSpace (c ∷ rest) h = (rw (h.0), Closers-NoSpace rest h.1)

pub trim_view-Closers : (rest : Bytes) → Closers rest → trim_view rest ≡ rest
unfolding trim_view
trim_view-Closers [] h = refl
trim_view-Closers (c ∷ rest) h =
    trim_view-Solid (c ∷ rest) (Solid-nospace (c ∷ rest) (λ e. cc) (Closers-NoSpace (c ∷ rest) h))

pub Solid-Closers : (s rest : Bytes) → Solid s → Closers rest → Solid (s ++ rest)
Solid-Closers s [] h k = rw (append-nil s) h
Solid-Closers s (c ∷ rest) h k =
    Solid-append s [] (c ∷ rest) h
      (Solid-nospace (c ∷ rest) (λ e. cc) (Closers-NoSpace (c ∷ rest) k))

pub Closers-token :
    (rest : Bytes) → Closers rest → (next_token rest ≡ []) ⊎ (next_token rest ≡ codes ")")
unfolding next_token
Closers-token [] h = inl (rw (next_token, trim_view-Closers [] tt))
Closers-token (c ∷ rest) h = inr (rw (next_token, trim_view-Closers (c ∷ rest) h, h.0))

Closers-Breaks : (rest : Bytes) → Closers rest → Breaks rest
Closers-Breaks [] h = tt
Closers-Breaks (c ∷ rest) h = rw (h.0)

plus_token : (t : Bytes) → Solid (b'+' ∷ t) → next_token (b'+' ∷ t) ≡ codes "+"
unfolding next_token
plus_token t h = rw (next_token, trim_view-Solid (b'+' ∷ t) h)

-- What follows a license: no word and no plus, and no blank at the end.
pub record Follows (t : Bytes) : Type 0 where
  pub breaks : Breaks t
  pub no_plus : bytes_eq (next_token t) (codes "+") ≡ false
  pub solid : (s : Bytes) → Solid s → Solid (s ++ t)

pub Closers-Follows : (rest : Bytes) → Closers rest → Follows rest
Closers-Follows rest h = record {
  breaks = Closers-Breaks rest h;
  no_plus = elim (Closers-token rest h) [ inl e ↦ rw (e) | inr e ↦ rw (e) ];
  solid = λ s k. Solid-Closers s rest k h;
}

-- An operator and what follows it.
module _ (op : Bytes) (n : op ≢ []) (word : IsWord op) (x : Bytes) (sx : Solid x) where
  pub op_Solid : Solid (op ++ b' ' ∷ x)
  op_Solid = Solid-append op (codes " ") x (Solid-word op n word) sx

  pub op_token : next_token (op ++ b' ' ∷ x) ≡ op
  op_token = next_token_word op (b' ' ∷ x) n word refl op_Solid

  blank_op_token : next_token (b' ' ∷ (op ++ b' ' ∷ x)) ≡ op
  unfolding next_token
  blank_op_token =
      rw (next_token, trim_view_blank (op ++ b' ' ∷ x) op_Solid)
        (first_token_word op (b' ' ∷ x) n word refl)

  pub op_Follows : Follows (b' ' ∷ (op ++ b' ' ∷ x))
  op_Follows = record {
    breaks = refl;
    no_plus = rw (blank_op_token) (word_not op b'+' word refl);
    solid = λ s k. Solid-append s (codes " ") (op ++ b' ' ∷ x) k op_Solid;
  }

parse_simple-known :
    (tables : Tables) (i : Info) (t : Bytes)
    → IsLicense tables i
    → Breaks t
    → Solid (i.id ++ t)
    → parse_simple tables (i.id ++ t) ≡ ok (simple_rest i t)
unfolding parse_simple
parse_simple-known tables i t l b whole = rw (
  parse_simple,
  trim_view-Solid (i.id ++ t) whole,
  next_token_word i.id t l.nonempty l.word b whole,
  l.known,
  trim_view-Solid (i.id ++ t) whole,
  next_token_word i.id t l.nonempty l.word b whole,
  drop-append i.id t,
)

pub parse_simple-license :
    (tables : Tables) (s : Simple) (t : Bytes)
    → IsLicense tables (license_of s)
    → Follows t
    → parse_simple tables (simple_to_string s ++ t) ≡ ok (s, t)
parse_simple-license tables (just_license_id i) t l f =
    parse_simple-known tables i t l f.breaks (f.solid i.id (Solid-word i.id l.nonempty l.word))
    ∙ rw (f.no_plus)
parse_simple-license tables (license_id_plus i) t l f =
    let word = Solid-word i.id l.nonempty l.word in
    let plus = f.solid (codes "+") (Solid-nospace (codes "+") (λ e. cc) (refl, tt)) in
    ap (parse_simple tables) (append_assoc i.id (codes "+") t)
    ∙ parse_simple-known tables i (b'+' ∷ t) l refl (Solid-append i.id [] (b'+' ∷ t) word plus)
    ∙ rw (plus_token t plus)

simple_Solid :
    (tables : Tables) (s : Simple) → IsLicense tables (license_of s) → Solid (simple_to_string s)
simple_Solid tables (just_license_id i) l = Solid-word i.id l.nonempty l.word
simple_Solid tables (license_id_plus i) l =
    Solid-append i.id [] (codes "+") (Solid-word i.id l.nonempty l.word)
      (Solid-nospace (codes "+") (λ e. cc) (refl, tt))

pub to_string-Solid : (tables : Tables) (e : Expr) → Printable tables e → Solid (to_string e)
unfolding to_string
to_string-Solid tables (simple s) h = simple_Solid tables s h
to_string-Solid tables (and_license (simple s) r) h =
    Solid-append (simple_to_string s) (codes " AND ") (to_string r) (simple_Solid tables s h.0)
      (to_string-Solid tables r h.1)
to_string-Solid tables (or_license (simple s) r) h =
    Solid-append (simple_to_string s) (codes " OR ") (to_string r) (simple_Solid tables s h.0)
      (to_string-Solid tables r h.1)
to_string-Solid tables (paren_grouped e) h =
    Solid-append (codes "(") (to_string e) (codes ")")
      (Solid-nospace (codes "(") (λ q. cc) (refl, tt))
      (Solid-nospace (codes ")") (λ q. cc) (refl, tt))
to_string-Solid tables (with_exception s e) h = absurd h
to_string-Solid tables (and_license (and_license a b) r) h = absurd h
to_string-Solid tables (and_license (or_license a b) r) h = absurd h
to_string-Solid tables (and_license (paren_grouped a) r) h = absurd h
to_string-Solid tables (and_license (with_exception a b) r) h = absurd h
to_string-Solid tables (or_license (and_license a b) r) h = absurd h
to_string-Solid tables (or_license (or_license a b) r) h = absurd h
to_string-Solid tables (or_license (paren_grouped a) r) h = absurd h
to_string-Solid tables (or_license (with_exception a b) r) h = absurd h
