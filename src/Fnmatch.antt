-- ===== src/Fnmatch.antt =====
-- src/bpt/util/fnmatch.cpp: file name patterns compiled at run time, and their matcher. (The
-- patterns that templates compile, of fnmatch.hpp, are not modelled.)
pub mod Match
pub mod Compile
pub mod Spelling
mod Tests
use bpt.Prelude.{
  ℕ, zero, suc, ◌-◌, Bool, true, false, ◌&&◌, ◌||◌, List, [], ◌∷◌, ◌++◌, ◌==◌, ltb, if◌then◌else◌,
  length, drop, Bytes, is_prefix,
}

-- The classes derived from base_pattern_elem. The link `next` is the rest of the list, and the
-- empty list is `rt_end`.
pub data PatternElem : Type 0 where
  star any_char : PatternElem
  oneof lit : Bytes → PatternElem

abbrev pub Pattern : Type 0
Pattern = List PatternElem

-- std::string::find of one character.
abbrev pub mem_byte : ℕ → Bytes → Bool
mem_byte c [] = false
mem_byte c (x ∷ s) = c == x || mem_byte c s

-- `rt_star::match`; `next` is the match of the rest of the pattern.
abbrev pub match_star : (Bytes → Bool) → Bytes → Bool
match_star next [] = next []
match_star next (c ∷ s) = elim (next (c ∷ s)) [ true ↦ true | false ↦ match_star next s ]

abbrev pub is_end : Bytes → Bool
is_end [] = true
is_end (c ∷ s) = false

abbrev pub match_any_char : (Bytes → Bool) → Bytes → Bool
match_any_char next [] = false
match_any_char next (c ∷ s) = next s

abbrev pub match_oneof : Bytes → (Bytes → Bool) → Bytes → Bool
match_oneof chars next [] = false
match_oneof chars next (c ∷ s) = if mem_byte c chars then next s else false

-- `rt_lit::match`: the length is tested before the characters are compared.
abbrev pub match_lit : Bytes → (Bytes → Bool) → Bytes → Bool
match_lit l next s =
    if ltb (length s) (length l)
    then false
    else if is_prefix l s
    then next (drop (length l) s)
    else false

unfoldable pub match : Pattern → Bytes → Bool
match [] s = is_end s
match (star ∷ p) s = match_star (match p) s
match (any_char ∷ p) s = match_any_char (match p) s
match (oneof chars ∷ p) s = match_oneof chars (match p) s
match (lit l ∷ p) s = match_lit l (match p) s

-- The two messages of the std::runtime_error. `out_of_fuel` belongs to the model only.
pub data Error : Type 0 where
  unterminated_group invalid_escape out_of_fuel : Error

pub data Result {ℓ} (A : Type ℓ) : Type ℓ where
  ok : A → Result A
  err : Error → Result A

infixl 5 ◌>>=◌
abbrev pub ◌>>=◌ {ℓ κ} : {A : Type ℓ} {B : Type κ} → Result A → (A → Result B) → Result B
ok a >>= f = f a
err e >>= f = err e

-- The loops return the text that they have collected and the rest of the pattern.
pub compile_oneof : Bytes → Bytes → Result (Bytes × Bytes)
compile_oneof chars [] = err unterminated_group
compile_oneof chars (c ∷ []) = if c == b']' then ok (chars, []) else err unterminated_group
compile_oneof chars (c ∷ d ∷ s) =
    let escape = compile_oneof (chars ++ d ∷ []) s in
    let plain = compile_oneof (chars ++ c ∷ []) (d ∷ s) in
    if c == b']' then ok (chars, d ∷ s) else if c == 92 then escape else plain

abbrev pub is_special : ℕ → Bool
is_special c = c == b'*' || c == b'[' || c == b'?'

pub compile_lit : Bytes → Bytes → Result (Bytes × Bytes)
compile_lit l [] = ok (l, [])
compile_lit l (c ∷ []) =
    if is_special c
    then ok (l, c ∷ [])
    else if c == 92
    then err invalid_escape
    else ok (l ++ c ∷ [], [])
compile_lit l (c ∷ d ∷ s) =
    let escape = compile_lit (l ++ d ∷ []) s in
    let plain = compile_lit (l ++ c ∷ []) (d ∷ s) in
    if is_special c then ok (l, c ∷ d ∷ s) else if c == 92 then escape else plain

-- `_compile_next`: each round adds one element and goes on behind it.
unfoldable pub compile_next : ℕ → Bytes → Result Pattern
unfolding compile_oneof compile_lit
compile_next fuel [] = ok []
compile_next zero (c ∷ s) = err out_of_fuel
compile_next (suc fuel) (c ∷ s) =
    let rest = compile_next fuel s in
    let group = compile_oneof [] s >>= λ r. compile_next fuel r.1 >>= λ p. ok (oneof r.0 ∷ p) in
    let literal = compile_lit [] (c ∷ s) >>= λ r. compile_next fuel r.1 >>= λ p. ok (lit r.0 ∷ p) in
    if c == b'*'
    then (rest >>= λ p. ok (star ∷ p))
    else if c == b'['
    then group
    else if c == b'?'
    then (rest >>= λ p. ok (any_char ∷ p))
    else literal

unfoldable pub compile : Bytes → Result Pattern
unfolding compile_next
compile str = compile_next (length str) str
