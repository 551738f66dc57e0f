-- ===== src/Fnmatch/Compile.antt =====
-- The compiler of file name patterns ends, and reads back the spelling of a pattern.
use bpt.Prelude.{ℕ, zero, suc, ◌≤◌, ◌<◌, false, [], ◌∷◌, ◌++◌, ◌≡◌, arith, length, Bytes}
use bpt.Fnmatch.{
  PatternElem, star, any_char, oneof, lit, Pattern, Result, ok, err, unterminated_group,
  invalid_escape, out_of_fuel, ◌>>=◌, compile_oneof, compile_lit, compile_next, compile, is_special,
}

-- A pattern, or one of the two errors that the source throws.
abbrev pub Ends {ℓ} : {A : Type ℓ} → Result A → Type 0
Ends (ok a) = Unit
Ends (err unterminated_group) = Unit
Ends (err invalid_escape) = Unit
Ends (err out_of_fuel) = ⊥

-- The rest that a loop leaves is shorter than what it was given.
abbrev Shorter : ℕ → Result (Bytes × Bytes) → Type 0
Shorter n (ok r) = length r.1 < n
Shorter n (err unterminated_group) = Unit
Shorter n (err invalid_escape) = Unit
Shorter n (err out_of_fuel) = ⊥

Shorter-mono : (n k : ℕ) (r : Result (Bytes × Bytes)) → n ≤ k → Shorter n r → Shorter k r
Shorter-mono n k (ok r) le h = omega arith
Shorter-mono n k (err unterminated_group) le h = tt
Shorter-mono n k (err invalid_escape) le h = tt
Shorter-mono n k (err out_of_fuel) le h = h

compile_oneof-Shorter : (chars s : Bytes) → Shorter (suc (length s)) (compile_oneof chars s)
unfolding compile_oneof
compile_oneof-Shorter chars [] = tt
compile_oneof-Shorter chars (c ∷ []) = ground arith
compile_oneof-Shorter chars (c ∷ d ∷ s) = ground (
  arith,
  Shorter-mono (suc (length s)) (suc (length (c ∷ d ∷ s))) (compile_oneof (chars ++ d ∷ []) s),
  Shorter-mono (suc (length (d ∷ s))) (suc (length (c ∷ d ∷ s)))
      (compile_oneof (chars ++ c ∷ []) (d ∷ s)),
  compile_oneof-Shorter (chars ++ d ∷ []) s,
  compile_oneof-Shorter (chars ++ c ∷ []) (d ∷ s),
)

compile_lit-Shorter : (l s : Bytes) → Shorter (suc (length s)) (compile_lit l s)
unfolding compile_lit
compile_lit-Shorter l [] = omega arith
compile_lit-Shorter l (c ∷ []) = ground arith
compile_lit-Shorter l (c ∷ d ∷ s) = ground (
  arith,
  Shorter-mono (suc (length s)) (suc (length (c ∷ d ∷ s))) (compile_lit (l ++ d ∷ []) s),
  Shorter-mono (suc (length (d ∷ s))) (suc (length (c ∷ d ∷ s)))
      (compile_lit (l ++ c ∷ []) (d ∷ s)),
  compile_lit-Shorter (l ++ d ∷ []) s,
  compile_lit-Shorter (l ++ c ∷ []) (d ∷ s),
)

-- A literal takes at least the character at which it begins.
compile_lit_takes :
    (l : Bytes) (c : ℕ) (s : Bytes)
    → is_special c ≡ false
    → Shorter (suc (length s)) (compile_lit l (c ∷ s))
unfolding compile_lit
compile_lit_takes l c [] h = ground arith
compile_lit_takes l c (d ∷ s) h = ground (
  arith,
  Shorter-mono (suc (length s)) (suc (length (d ∷ s))) (compile_lit (l ++ d ∷ []) s),
  compile_lit-Shorter (l ++ d ∷ []) s,
  compile_lit-Shorter (l ++ c ∷ []) (d ∷ s),
)

Ends-bind :
    {B : Type 0} (n : ℕ) (r : Result (Bytes × Bytes)) (f : Bytes × Bytes → Result B)
    → Shorter n r
    → ((x : Bytes × Bytes) → length x.1 < n → Ends (f x))
    → Ends (r >>= f)
Ends-bind n (ok x) f h k = k x h
Ends-bind n (err unterminated_group) f h k = tt
Ends-bind n (err invalid_escape) f h k = tt
Ends-bind n (err out_of_fuel) f h k = h

Ends-cons : (x : PatternElem) (r : Result Pattern) → Ends r → Ends (r >>= λ p. ok (x ∷ p))
Ends-cons x (ok p) h = tt
Ends-cons x (err unterminated_group) h = tt
Ends-cons x (err invalid_escape) h = tt
Ends-cons x (err out_of_fuel) h = h

-- One round, given that the rounds behind it end.
module _ (fuel : ℕ) (ends : (t : Bytes) → length t ≤ fuel → Ends (compile_next fuel t)) where
  group_Ends :
      (s : Bytes)
      → length s ≤ fuel
      → Ends (compile_oneof [] s >>= λ r. compile_next fuel r.1 >>= λ p. ok (oneof r.0 ∷ p))
  group_Ends s h =
      Ends-bind (suc (length s)) (compile_oneof [] s) _ (compile_oneof-Shorter [] s)
        λ x shorter. Ends-cons (oneof x.0) (compile_next fuel x.1) (ends x.1 (omega arith))

  literal_Ends :
      (c : ℕ) (s : Bytes)
      → length s ≤ fuel
      → is_special c ≡ false
      → Ends (compile_lit [] (c ∷ s) >>= λ r. compile_next fuel r.1 >>= λ p. ok (lit r.0 ∷ p))
  literal_Ends c s h plain =
      Ends-bind (suc (length s)) (compile_lit [] (c ∷ s)) _ (compile_lit_takes [] c s plain)
        λ x shorter. Ends-cons (lit x.0) (compile_next fuel x.1) (ends x.1 (omega arith))

compile_next-Ends : (fuel : ℕ) (s : Bytes) → length s ≤ fuel → Ends (compile_next fuel s)
unfolding compile_next
compile_next-Ends fuel [] h = tt
compile_next-Ends zero (c ∷ s) h = absurd (omega arith)
compile_next-Ends (suc fuel) (c ∷ s) h = ground (
  arith,
  Ends-cons star (compile_next fuel s),
  Ends-cons any_char (compile_next fuel s),
  compile_next-Ends fuel s,
  group_Ends fuel (compile_next-Ends fuel) s,
  literal_Ends fuel (compile_next-Ends fuel) c s,
)

-- `compile` ends on every text, with a pattern or with one of its two errors.
pub compile-Ends : (str : Bytes) → Ends (compile str)
unfolding compile
compile-Ends str = compile_next-Ends (length str) str (omega arith)
