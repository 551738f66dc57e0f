-- ===== src/Fnmatch/Spelling.antt =====
-- Patterns written out, and compiled back.
use bpt.Prelude.{
  ℕ, zero, suc, ◌≤◌, true, false, ◌||◌, [], ◌∷◌, ◌++◌, ◌≡◌, ◌≢◌, inl, inr, refl, ◌∙◌, arith, length,
  length-append, append_assoc, append-nil, Bytes, Bool-cases, ◌==◌, if◌then◌else◌,
}
use bpt.Fnmatch.{
  star, any_char, oneof, lit, Pattern, ok, ◌>>=◌, compile_oneof, compile_lit, compile_next, compile,
  is_special,
}

-- A backslash before each character that would end the text.
abbrev spell_group : Bytes → Bytes
spell_group [] = []
spell_group (c ∷ s) = if c == b']' || c == 92 then 92 ∷ c ∷ spell_group s else c ∷ spell_group s

abbrev pub spell_lit : Bytes → Bytes
spell_lit [] = []
spell_lit (c ∷ s) = if is_special c || c == 92 then 92 ∷ c ∷ spell_lit s else c ∷ spell_lit s

abbrev pub spell : Pattern → Bytes
spell [] = []
spell (star ∷ p) = b'*' ∷ spell p
spell (any_char ∷ p) = b'?' ∷ spell p
spell (oneof chars ∷ p) = b'[' ∷ (spell_group chars ++ (b']' ∷ spell p))
spell (lit l ∷ p) = spell_lit l ++ spell p

-- No literal is empty, and none stands directly before another one.
abbrev pub IsNormal : Pattern → Type 0
IsNormal [] = Unit
IsNormal (lit [] ∷ p) = ⊥
IsNormal (lit (c ∷ l) ∷ lit k ∷ p) = ⊥
IsNormal (lit (c ∷ l) ∷ p) = IsNormal p
IsNormal (_ ∷ p) = IsNormal p

oneof_plain :
    (chars : Bytes) (c : ℕ) (t : Bytes)
    → c ≢ b']'
    → c ≢ 92
    → compile_oneof chars (c ∷ t) ≡ compile_oneof (chars ++ c ∷ []) t
unfolding compile_oneof
oneof_plain chars c [] h k = ground arith
oneof_plain chars c (d ∷ t) h k = ground arith

compile_oneof-spell_group :
    (chars s rest : Bytes)
    → compile_oneof chars (spell_group s ++ (b']' ∷ rest)) ≡ ok (chars ++ s, rest)
unfolding compile_oneof
compile_oneof-spell_group chars [] [] = ground (arith, append-nil chars)
compile_oneof-spell_group chars [] (d ∷ rest) = ground (arith, append-nil chars)
compile_oneof-spell_group chars (c ∷ s) rest = ground (
  arith,
  oneof_plain chars c (spell_group s ++ (b']' ∷ rest)),
  compile_oneof-spell_group (chars ++ c ∷ []) s rest,
  append_assoc chars (c ∷ []) s,
)

lit_plain :
    (l : Bytes) (c : ℕ) (t : Bytes)
    → is_special c ≡ false
    → c ≢ 92
    → compile_lit l (c ∷ t) ≡ compile_lit (l ++ c ∷ []) t
unfolding compile_lit
lit_plain l c [] h k = ground arith
lit_plain l c (d ∷ t) h k = ground arith

-- The text ends, or goes on with a character that ends a literal.
abbrev EndsLiteral : Bytes → Type 0
EndsLiteral [] = Unit
EndsLiteral (c ∷ s) = is_special c ≡ true

compile_lit-spell_lit :
    (l s rest : Bytes) → EndsLiteral rest → compile_lit l (spell_lit s ++ rest) ≡ ok (l ++ s, rest)
unfolding compile_lit
compile_lit-spell_lit l [] [] h = ground (arith, append-nil l)
compile_lit-spell_lit l [] (c ∷ []) h = ground (arith, append-nil l)
compile_lit-spell_lit l [] (c ∷ d ∷ rest) h = ground (arith, append-nil l)
compile_lit-spell_lit l (c ∷ s) rest h = ground (
  arith,
  lit_plain l c (spell_lit s ++ rest),
  compile_lit-spell_lit (l ++ c ∷ []) s rest,
  append_assoc l (c ∷ []) s,
)

EndsLiteral-spell :
    (c : ℕ) (l : Bytes) (p : Pattern) → IsNormal (lit (c ∷ l) ∷ p) → EndsLiteral (spell p)
EndsLiteral-spell c l [] h = tt
EndsLiteral-spell c l (star ∷ p) h = refl
EndsLiteral-spell c l (any_char ∷ p) h = refl
EndsLiteral-spell c l (oneof chars ∷ p) h = refl
EndsLiteral-spell c l (lit k ∷ p) h = absurd h

IsNormal-tail : (c : ℕ) (l : Bytes) (p : Pattern) → IsNormal (lit (c ∷ l) ∷ p) → IsNormal p
IsNormal-tail c l [] h = h
IsNormal-tail c l (star ∷ p) h = h
IsNormal-tail c l (any_char ∷ p) h = h
IsNormal-tail c l (oneof chars ∷ p) h = h
IsNormal-tail c l (lit k ∷ p) h = absurd h

-- The round of the compiler at a character that begins a literal.
compile_next-plain :
    (f c : ℕ) (s : Bytes)
    → is_special c ≡ false
    → compile_next (suc f) (c ∷ s)
      ≡ (compile_lit [] (c ∷ s) >>= λ r. compile_next f r.1 >>= λ p. ok (lit r.0 ∷ p))
unfolding compile_next
compile_next-plain f c s h =
    let no_star : (c == b'*') ≡ false = ground arith in
    let no_group : (c == b'[') ≡ false = ground arith in
    let no_any : (c == b'?') ≡ false = ground arith in rw (no_star, no_group, no_any)

literal_round :
    (f : ℕ) (c : ℕ) (l rest : Bytes)
    → EndsLiteral rest
    → compile_next (suc f) (spell_lit (c ∷ l) ++ rest)
      ≡ (compile_next f rest >>= λ p. ok (lit (c ∷ l) ∷ p))
literal_round f c l rest h = elim (Bool-cases (is_special c || c == 92)) [
  | inl escaped ↦
      let reads : compile_lit [] (92 ∷ c ∷ (spell_lit l ++ rest)) ≡ ok (c ∷ l, rest) =
        ground (arith, compile_lit-spell_lit [] (c ∷ l) rest h) in
      rw escaped (compile_next-plain f 92 (c ∷ (spell_lit l ++ rest)) refl ∙ rw reads)
  | inr plain ↦
      let reads : compile_lit [] (c ∷ (spell_lit l ++ rest)) ≡ ok (c ∷ l, rest) =
        ground (arith, compile_lit-spell_lit [] (c ∷ l) rest h) in
      rw plain (compile_next-plain f c (spell_lit l ++ rest) (ground arith) ∙ rw reads)
]

group_round :
    (f : ℕ) (chars rest : Bytes)
    → compile_next (suc f) (b'[' ∷ (spell_group chars ++ (b']' ∷ rest)))
      ≡ (compile_next f rest >>= λ p. ok (oneof chars ∷ p))
unfolding compile_next
group_round f chars rest = rw (compile_oneof-spell_group [] chars rest)

length-spell_lit : (l : Bytes) → length l ≤ length (spell_lit l)
length-spell_lit [] = omega arith
length-spell_lit (c ∷ l) = ground (arith, length-spell_lit l)

compile_next-spell :
    (f : ℕ) (p : Pattern) → IsNormal p → length (spell p) ≤ f → compile_next f (spell p) ≡ ok p
unfolding compile_next
compile_next-spell f [] n h = refl
compile_next-spell zero (star ∷ p) n h = absurd (omega arith)
compile_next-spell (suc f) (star ∷ p) n h = rw (compile_next-spell f p n (omega arith))
compile_next-spell zero (any_char ∷ p) n h = absurd (omega arith)
compile_next-spell (suc f) (any_char ∷ p) n h = rw (compile_next-spell f p n (omega arith))
compile_next-spell zero (oneof chars ∷ p) n h = absurd (omega arith)
compile_next-spell (suc f) (oneof chars ∷ p) n h =
    let size = length-append (spell_group chars) (b']' ∷ spell p) in
    group_round f chars (spell p) ∙ rw (compile_next-spell f p n (omega (arith, size)))
compile_next-spell f (lit [] ∷ p) n h = absurd n
compile_next-spell zero (lit (c ∷ l) ∷ p) n h =
    absurd (omega (arith, length-append (spell_lit (c ∷ l)) (spell p), length-spell_lit (c ∷ l)))
compile_next-spell (suc f) (lit (c ∷ l) ∷ p) n h =
    let size = length-append (spell_lit (c ∷ l)) (spell p) in
    literal_round f c l (spell p) (EndsLiteral-spell c l p n)
    ∙ rw (
        compile_next-spell f p (IsNormal-tail c l p n)
          (omega (arith, size, length-spell_lit (c ∷ l))))

-- The spelling of a pattern without empty and without adjacent literals, with a backslash before
-- each special character, compiles to that pattern.
pub compile-spell : (p : Pattern) → IsNormal p → compile (spell p) ≡ ok p
unfolding compile
compile-spell p n = compile_next-spell (length (spell p)) p n (omega arith)
