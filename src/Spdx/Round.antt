-- ===== src/Spdx/Round.antt =====
-- Printed SPDX expressions are parsed back: the recursion over an expression.
use bpt.Prelude.{
  ℕ, zero, suc, ◌<◌, [], ◌∷◌, ◌++◌, ◌≡◌, inl, inr, refl, sym, ap, ◌∙◌, arith, length, length-append,
  append_assoc, append-nil, Bytes, codes,
}
use bpt.Text.{trim_view}
use bpt.Spdx.{
  Tables, next_token, Simple, Expr, just_license_id, license_id_plus, simple, and_license,
  or_license, paren_grouped, with_exception, Result, ok, ◌>>=◌, after_simple, parse_compound,
  no_trailing, parse, simple_to_string, to_string,
}
use bpt.Spdx.Solid.{
  Solid, Solid-append, trim_view-Solid, trim_view_blank, Solid-nospace, Solid-word,
}
use bpt.Spdx.Print.{
  IsLicense, license_of, Printable, Closers, Follows, next_token_word, word_not,
  parse_simple-license, to_string-Solid, trim_view-Closers, Solid-Closers, Closers-token,
  Closers-Follows, op_Solid, op_token, op_Follows,
}

simple_token :
    (tables : Tables) (s : Simple) (t : Bytes)
    → IsLicense tables (license_of s)
    → Follows t
    → next_token (simple_to_string s ++ t) ≡ (license_of s).id
simple_token tables (just_license_id i) t l f =
    next_token_word i.id t l.nonempty l.word f.breaks
      (f.solid i.id (Solid-word i.id l.nonempty l.word))
simple_token tables (license_id_plus i) t l f =
    let word = Solid-word i.id l.nonempty l.word in
    let plus = f.solid (codes "+") (Solid-nospace (codes "+") (λ e. cc) (refl, tt)) in
    ap next_token (append_assoc i.id (codes "+") t)
    ∙ next_token_word i.id (b'+' ∷ t) l.nonempty l.word refl
        (Solid-append i.id [] (b'+' ∷ t) word plus)

module _ (tables : Tables) (fuel : ℕ) (s : Simple) (l : IsLicense tables (license_of s)) where
  begin :
      (s0 t : Bytes)
      → Follows t
      → trim_view s0 ≡ simple_to_string s ++ t
      → parse_compound (suc fuel) tables s0
        ≡ after_simple tables (parse_compound fuel tables) (s, t)
  unfolding parse_compound
  begin s0 t f e = rw (
    parse_compound,
    e,
    simple_token tables s t l f,
    word_not (license_of s).id b'(' l.word refl,
    parse_simple-license tables s t l f,
  )

  end-Closers :
      (go : Bytes → Result (Expr × Bytes)) (rest : Bytes)
      → Closers rest
      → after_simple tables go (s, rest) ≡ ok (simple s, rest)
  end-Closers go rest h = elim (Closers-token rest h) [
    | inl e ↦ rw (trim_view-Closers rest h, e)
    | inr e ↦ rw (trim_view-Closers rest h, e)
  ]

  after_or :
      (go : Bytes → Result (Expr × Bytes)) (x : Bytes)
      → Solid x
      → after_simple tables go (s, b' ' ∷ (codes "OR" ++ b' ' ∷ x))
        ≡ (go (b' ' ∷ x) >>= λ r. ok (or_license (simple s) r.0, r.1))
  after_or go x sx = rw (
    trim_view_blank (codes "OR" ++ b' ' ∷ x)
        (op_Solid (codes "OR") (λ e. cc) (refl, (refl, tt)) x sx),
    op_token (codes "OR") (λ e. cc) (refl, (refl, tt)) x sx,
  )

  after_and :
      (go : Bytes → Result (Expr × Bytes)) (x : Bytes)
      → Solid x
      → after_simple tables go (s, b' ' ∷ (codes "AND" ++ b' ' ∷ x))
        ≡ (go (b' ' ∷ x) >>= λ r. ok (and_license (simple s) r.0, r.1))
  after_and go x sx = rw (
    trim_view_blank (codes "AND" ++ b' ' ∷ x)
        (op_Solid (codes "AND") (λ e. cc) (refl, (refl, (refl, tt))) x sx),
    op_token (codes "AND") (λ e. cc) (refl, (refl, (refl, tt))) x sx,
  )

  -- An operand and its operator, given the round trip of the right side.
  module _ (go : Bytes → Result (Expr × Bytes)) (r : Expr) (pr : Printable tables r) (rest : Bytes)
      (c : Closers rest) where
    right_Solid : Solid (to_string r ++ rest)
    right_Solid = Solid-Closers (to_string r) rest (to_string-Solid tables r pr) c

    line :
        (op : Bytes)
        → (simple_to_string s ++ ((b' ' ∷ (op ++ codes " ")) ++ to_string r)) ++ rest
          ≡ simple_to_string s ++ (b' ' ∷ (op ++ b' ' ∷ (to_string r ++ rest)))
    line op =
        append_assoc (simple_to_string s) _ rest
        ∙ ap (λ t. simple_to_string s ++ (b' ' ∷ t))
            (append_assoc (op ++ codes " ") (to_string r) rest
              ∙ append_assoc op (codes " ") (to_string r ++ rest))

group_round :
    (fuel : ℕ) (tables : Tables) (e : Expr) (rest s : Bytes)
    → Solid (b'(' ∷ (to_string e ++ b')' ∷ rest))
    → Closers rest
    → trim_view s ≡ b'(' ∷ (to_string e ++ b')' ∷ rest)
    → parse_compound fuel tables (to_string e ++ b')' ∷ rest) ≡ ok (e, b')' ∷ rest)
    → parse_compound (suc fuel) tables s ≡ ok (paren_grouped e, rest)
unfolding parse_compound next_token
group_round fuel tables e rest s solid c q ih = rw (
  parse_compound,
  q,
  next_token,
  trim_view-Solid (b'(' ∷ (to_string e ++ b')' ∷ rest)) solid,
  ih,
  trim_view-Closers (b')' ∷ rest) (refl, c),
  trim_view-Closers (b')' ∷ rest) (refl, c),
)

parse_compound-to_string :
    (fuel : ℕ) (tables : Tables) (e : Expr) (rest s : Bytes)
    → length (to_string e) < fuel
    → Printable tables e
    → Closers rest
    → trim_view s ≡ to_string e ++ rest
    → parse_compound fuel tables s ≡ ok (e, rest)
unfolding to_string
parse_compound-to_string zero tables e rest s lt h c q = absurd (omega arith)
parse_compound-to_string (suc fuel) tables (simple l) rest s lt h c q =
    begin tables fuel l h s rest (Closers-Follows rest c) q
    ∙ end-Closers tables fuel l h (parse_compound fuel tables) rest c
parse_compound-to_string (suc fuel) tables (or_license (simple l) r) rest s lt h c q =
    let x = to_string r ++ rest in
    let sx = right_Solid tables fuel l h.0 (parse_compound fuel tables) r h.1 rest c in
    let small = length-append (simple_to_string l) (codes " OR " ++ to_string r) in
    begin tables fuel l h.0 s (b' ' ∷ (codes "OR" ++ b' ' ∷ x))
      (op_Follows (codes "OR") (λ e. cc) (refl, (refl, tt)) x sx)
      (q ∙ line tables fuel l h.0 (parse_compound fuel tables) r h.1 rest c (codes "OR"))
    ∙ after_or tables fuel l h.0 (parse_compound fuel tables) x sx
    ∙ rw (
        parse_compound-to_string fuel tables r rest (b' ' ∷ x) (omega (arith, small)) h.1 c
          (trim_view_blank x sx))
parse_compound-to_string (suc fuel) tables (and_license (simple l) r) rest s lt h c q =
    let x = to_string r ++ rest in
    let sx = right_Solid tables fuel l h.0 (parse_compound fuel tables) r h.1 rest c in
    let small = length-append (simple_to_string l) (codes " AND " ++ to_string r) in
    begin tables fuel l h.0 s (b' ' ∷ (codes "AND" ++ b' ' ∷ x))
      (op_Follows (codes "AND") (λ e. cc) (refl, (refl, (refl, tt))) x sx)
      (q ∙ line tables fuel l h.0 (parse_compound fuel tables) r h.1 rest c (codes "AND"))
    ∙ after_and tables fuel l h.0 (parse_compound fuel tables) x sx
    ∙ rw (
        parse_compound-to_string fuel tables r rest (b' ' ∷ x) (omega (arith, small)) h.1 c
          (trim_view_blank x sx))
parse_compound-to_string (suc fuel) tables (paren_grouped e) rest s lt h c q =
    let inner = to_string-Solid tables e h in
    let closed = Solid-Closers (to_string e) (b')' ∷ rest) inner (refl, c) in
    let whole =
      Solid-append (codes "(") [] (to_string e ++ b')' ∷ rest)
        (Solid-nospace (codes "(") (λ u. cc) (refl, tt)) closed in
    group_round fuel tables e rest s whole c
      (q ∙ ap (λ t. b'(' ∷ t) (append_assoc (to_string e) (codes ")") rest))
      (parse_compound-to_string fuel tables e (b')' ∷ rest) (to_string e ++ b')' ∷ rest)
        (omega (arith, length-append (to_string e) (codes ")"))) h (refl, c)
        (trim_view-Solid (to_string e ++ b')' ∷ rest) closed))
parse_compound-to_string (suc fuel) tables (with_exception a e) rest s lt h c q = absurd h
parse_compound-to_string (suc fuel) tables (and_license (and_license a b) r) rest s lt h c q =
    absurd h
parse_compound-to_string (suc fuel) tables (and_license (or_license a b) r) rest s lt h c q =
    absurd h
parse_compound-to_string (suc fuel) tables (and_license (paren_grouped a) r) rest s lt h c q =
    absurd h
parse_compound-to_string (suc fuel) tables (and_license (with_exception a b) r) rest s lt h c q =
    absurd h
parse_compound-to_string (suc fuel) tables (or_license (and_license a b) r) rest s lt h c q =
    absurd h
parse_compound-to_string (suc fuel) tables (or_license (or_license a b) r) rest s lt h c q =
    absurd h
parse_compound-to_string (suc fuel) tables (or_license (paren_grouped a) r) rest s lt h c q =
    absurd h
parse_compound-to_string (suc fuel) tables (or_license (with_exception a b) r) rest s lt h c q =
    absurd h

-- The parser reads what is printed for an expression without exceptions, in which the left side
-- of each operator is a license and every license is found in the table by its identifier, which is
-- a word, as that expression.
pub parse-to_string :
    (tables : Tables) (e : Expr) → Printable tables e → parse tables (to_string e) ≡ ok e
unfolding parse trim_view
parse-to_string tables e h =
    ap (λ r. r >>= no_trailing)
      (parse_compound-to_string (suc (length (to_string e))) tables e [] (to_string e) (omega arith)
        h tt
        (trim_view-Solid (to_string e) (to_string-Solid tables e h)
          ∙ sym (append-nil (to_string e))))
