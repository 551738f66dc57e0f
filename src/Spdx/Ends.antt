-- ===== src/Spdx/Ends.antt =====
-- The parser of SPDX expressions ends.
use bpt.Prelude.{
  ℕ, zero, suc, ◌≤◌, ◌<◌, true, Option, none, some, [], ◌∷◌, ◌++◌, ◌≡◌, inl, inr, ap, arith, length,
  drop, length-drop, length-append, Bytes, Bool-cases, bytes_eq, bytes_eq_iff, codes,
}
use bpt.Text.{trim_view}
use bpt.Text.Trim.{trim_view_cut}
use bpt.Spdx.{
  Info, Tables, next_token, find_with_id, Simple, Expr, Result, ok, err, ◌>>=◌, no_such_license,
  no_such_exception, missing_parenthesis, trailing_content, out_of_fuel, simple_rest, parse_simple,
  close_paren, after_simple, parse_compound, no_trailing, parse,
}

-- An expression with a rest of at most `n` bytes, or one of the exceptions of the source.
abbrev Within : {A : Type 0} → ℕ → Result (A × Bytes) → Type 0
Within n (ok r) = length r.1 ≤ n
Within n (err no_such_license) = Unit
Within n (err no_such_exception) = Unit
Within n (err missing_parenthesis) = Unit
Within n (err trailing_content) = Unit
Within n (err out_of_fuel) = ⊥

abbrev pub Ends : Result Expr → Type 0
Ends (ok e) = Unit
Ends (err no_such_license) = Unit
Ends (err no_such_exception) = Unit
Ends (err missing_parenthesis) = Unit
Ends (err trailing_content) = Unit
Ends (err out_of_fuel) = ⊥

length-trim_view : (s : Bytes) → length (trim_view s) ≤ length s
length-trim_view s =
    let ((a, b, e, h, k), t) = trim_view_cut s in
    omega (arith, ap length e, length-append a (trim_view s ++ b), length-append (trim_view s) b)

nil_token : (c : ℕ) (t : Bytes) → next_token [] ≡ c ∷ t → ⊥
unfolding next_token trim_view
nil_token c t e = cc

-- A text with a token is not empty.
nonempty_of_token :
    (s : Bytes) (c : ℕ) (t : Bytes) → bytes_eq (next_token s) (c ∷ t) ≡ true → 0 < length s
unfolding next_token
nonempty_of_token [] c t h =
    let e = (bytes_eq_iff (next_token []) (c ∷ t)).0 h in absurd (nil_token c t e)
nonempty_of_token (x ∷ s) c t h = omega arith

simple_rest_Within : (l : Info) (s : Bytes) → length (simple_rest l s).1 ≤ length s
simple_rest_Within l s = elim (Bool-cases (bytes_eq (next_token s) (codes "+"))) [
  | inl plus ↦ rw (plus) (omega (arith, length-drop 1 s))
  | inr plain ↦ rw (plain) (omega arith)
]

found_Within :
    (s : Bytes) (o : Option Info) (tok : Bytes)
    → Within
        (length s)
        (elim o [ none ↦ err no_such_license | some l ↦ ok (simple_rest l (drop (length tok) s)) ])
found_Within s none tok = tt
found_Within s (some l) tok =
    omega (arith, simple_rest_Within l (drop (length tok) s), length-drop (length tok) s)

Within-mono : {A : Type 0} (n k : ℕ) (r : Result (A × Bytes)) → n ≤ k → Within n r → Within k r
Within-mono n k (ok r) le h = omega arith
Within-mono n k (err no_such_license) le h = tt
Within-mono n k (err no_such_exception) le h = tt
Within-mono n k (err missing_parenthesis) le h = tt
Within-mono n k (err trailing_content) le h = tt
Within-mono n k (err out_of_fuel) le h = h

parse_simple-Within : (tables : Tables) (s : Bytes) → Within (length s) (parse_simple tables s)
unfolding parse_simple
parse_simple-Within tables s =
    Within-mono (length (trim_view s)) (length s) _ (length-trim_view s) (
      found_Within (trim_view s) (find_with_id tables.licenses (next_token (trim_view s)))
        (next_token (trim_view s)))

close_paren-Within : (n : ℕ) (r : Result (Expr × Bytes)) → Within n r → Within n (close_paren r)
close_paren-Within n (ok (e, rest)) h =
    elim (Bool-cases (bytes_eq (next_token (trim_view rest)) (codes ")"))) [
      | inl closed ↦
          rw (closed) (omega (arith, length-drop 1 (trim_view rest), length-trim_view rest))
      | inr open_ ↦ rw (open_) tt
    ]
close_paren-Within n (err no_such_license) h = tt
close_paren-Within n (err no_such_exception) h = tt
close_paren-Within n (err missing_parenthesis) h = tt
close_paren-Within n (err trailing_content) h = tt
close_paren-Within n (err out_of_fuel) h = h

bind-Within :
    {A B : Type 0} (n k : ℕ) (r : Result (A × Bytes)) (f : A × Bytes → Result (B × Bytes))
    → Within n r
    → ((x : A × Bytes) → length x.1 ≤ n → Within k (f x))
    → Within k (r >>= f)
bind-Within n k (ok x) f h next = next x h
bind-Within n k (err no_such_license) f h next = tt
bind-Within n k (err no_such_exception) f h next = tt
bind-Within n k (err missing_parenthesis) f h next = tt
bind-Within n k (err trailing_content) f h next = tt
bind-Within n k (err out_of_fuel) f h next = h

exception_Within :
    (l : Simple) (s : Bytes) (o : Option Info) (tok : Bytes)
    → Within (length s) (elim o [
      | none ↦ err no_such_exception
      | some e ↦ ok (Expr.with_exception l e, drop (length tok) s)
    ])
exception_Within l s none tok = tt
exception_Within l s (some e) tok = omega (arith, length-drop (length tok) s)

-- One round, given that the recursion ends on shorter texts.
module _ (tables : Tables) (go : Bytes → Result (Expr × Bytes)) (n : ℕ)
    (ends : (t : Bytes) → length t < n → Within (length t) (go t)) where
  operand_Within :
      (make : Expr → Expr) (k : ℕ) (s : Bytes)
      → 0 < k
      → 0 < length s
      → length s ≤ n
      → Within n (go (drop k s) >>= λ r. ok (make r.0, r.1))
  operand_Within make k s pos nonempty le =
      let shorter = length-drop k s in
      bind-Within (length (drop k s)) n (go (drop k s)) _ (ends (drop k s) (omega (arith, shorter)))
        λ x h. omega (arith, shorter)

  after_simple-Within :
      (license : Simple) (rest : Bytes)
      → length rest ≤ n
      → Within n (after_simple tables go (license, rest))
  after_simple-Within license rest le =
      let s = trim_view rest in
      let short = length-trim_view rest in
      elim (Bool-cases (bytes_eq (next_token s) (codes "OR"))) [
        | inl is_or ↦ rw (is_or) (
            operand_Within (λ e. Expr.or_license (Expr.simple license) e) 2 s (omega arith)
              (nonempty_of_token s _ _ is_or) (omega (arith, short)))
        | inr not_or ↦ elim (Bool-cases (bytes_eq (next_token s) (codes "AND"))) [
          | inl is_and ↦
              rw (not_or, is_and)
                (operand_Within (λ e. Expr.and_license (Expr.simple license) e) 3 s (omega arith)
                  (nonempty_of_token s _ _ is_and) (omega (arith, short)))
          | inr not_and ↦ elim (Bool-cases (bytes_eq (next_token s) (codes "WITH"))) [
            | inl is_with ↦
                rw (not_or, not_and, is_with)
                  (Within-mono (length (drop 4 s)) n _ (omega (arith, short, length-drop 4 s)) (
                    exception_Within license (drop 4 s)
                      (find_with_id tables.exceptions (next_token (drop 4 s)))
                      (next_token (drop 4 s))))
            | inr not_with ↦ rw (not_or, not_and, not_with) (omega (arith, short))
          ]
        ]
      ]

parse_compound-Within :
    (fuel : ℕ) (tables : Tables) (s : Bytes)
    → length s < fuel
    → Within (length s) (parse_compound fuel tables s)
unfolding parse_compound
parse_compound-Within zero tables s h = absurd (omega arith)
parse_compound-Within (suc fuel) tables s h =
    let t = trim_view s in
    let short = length-trim_view s in
    elim (Bool-cases (bytes_eq (next_token t) (codes "("))) [
      | inl group ↦
          let pos = nonempty_of_token t _ _ group in
          rw (parse_compound, group)
            (Within-mono (length (drop 1 t)) (length s) _ (omega (arith, short, length-drop 1 t)) (
              close_paren-Within (length (drop 1 t)) (parse_compound fuel tables (drop 1 t)) (
                parse_compound-Within fuel tables (drop 1 t)
                  (omega (arith, short, pos, length-drop 1 t)))))
      | inr plain ↦
          rw (parse_compound, plain)
            (Within-mono (length t) (length s) _ short (
              bind-Within (length t) (length t) (parse_simple tables t) _
                (parse_simple-Within tables t)
                λ x le.
                  after_simple-Within tables (parse_compound fuel tables) (length t)
                    (λ u lt. parse_compound-Within fuel tables u (omega (arith, short))) x.0 x.1
                    le))
    ]

trailing_Ends : (e : Expr) (s : Bytes) → Ends (elim s [ [] ↦ ok e | c ∷ t ↦ err trailing_content ])
trailing_Ends e [] = tt
trailing_Ends e (c ∷ t) = tt

no_trailing-Ends : (n : ℕ) (r : Result (Expr × Bytes)) → Within n r → Ends (r >>= no_trailing)
no_trailing-Ends n (ok (e, rest)) h = trailing_Ends e (trim_view rest)
no_trailing-Ends n (err no_such_license) h = tt
no_trailing-Ends n (err no_such_exception) h = tt
no_trailing-Ends n (err missing_parenthesis) h = tt
no_trailing-Ends n (err trailing_content) h = tt
no_trailing-Ends n (err out_of_fuel) h = h

-- Over any tables the parser ends on every text, with an expression or with one of its exceptions.
pub parse-Ends : (tables : Tables) (sv : Bytes) → Ends (parse tables sv)
unfolding parse
parse-Ends tables sv =
    no_trailing-Ends (length sv) (parse_compound (suc (length sv)) tables sv)
      (parse_compound-Within (suc (length sv)) tables sv (omega arith))
