-- ===== src/Glob/Compile.antt =====
-- The compiler of globs ends.
use bpt.Prelude.{
  ℕ, zero, suc, ◌≤◌, Option, none, some, [], ◌∷◌, ◌≡◌, ◌≢◌, inl, inr, refl, arith, length, take,
  drop, Bytes, codes, bytes_eq, Option-cases, Bool-cases,
}
use bpt.Text.{find}
use bpt.Text.Find.{length-after_find}
use bpt.Fnmatch.{
  Pattern, Result, out_of_fuel as pattern_fuel, ok, err, unterminated_group, invalid_escape,
  compile,
}
use bpt.Fnmatch.Compile.{Ends, compile-Ends}
use bpt.Glob.{
  GlobResult, compiled, failed, bad_pattern, empty_glob, out_of_fuel, add_item, add_part,
  compile_parts, not_empty, compile_glob_expr,
}

-- Items, of which there are some where there is text, or the exception of a part.
abbrev PartsEnd : Bytes → GlobResult → Type 0
PartsEnd s (compiled items) = s ≢ [] → items ≢ []
PartsEnd s (failed (bad_pattern e)) = Ends {A = Bytes} (err e)
PartsEnd s (failed empty_glob) = ⊥
PartsEnd s (failed out_of_fuel) = ⊥

-- A glob with an item, an exception of the file name patterns, or that of an empty text.
abbrev pub GlobEnds : Bytes → GlobResult → Type 0
GlobEnds s (compiled items) = items ≢ []
GlobEnds s (failed (bad_pattern e)) = Ends {A = Bytes} (err e)
GlobEnds s (failed empty_glob) = s ≡ []
GlobEnds s (failed out_of_fuel) = ⊥

add_item-PartsEnd :
    (t s : Bytes) (i : Option Pattern) (r : GlobResult) → PartsEnd t r → PartsEnd s (add_item i r)
add_item-PartsEnd t s i (compiled items) h = λ _ n. cc
add_item-PartsEnd t s i (failed (bad_pattern e)) h = h
add_item-PartsEnd t s i (failed empty_glob) h = h
add_item-PartsEnd t s i (failed out_of_fuel) h = h

part-PartsEnd :
    (t s : Bytes) (c : Result Pattern) (r : GlobResult)
    → Ends c
    → PartsEnd t r
    → PartsEnd s (elim c [ ok p ↦ add_item (some p) r | err e ↦ failed (bad_pattern e) ])
part-PartsEnd t s (ok p) r ends h = add_item-PartsEnd t s (some p) r h
part-PartsEnd t s (err unterminated_group) r ends h = tt
part-PartsEnd t s (err invalid_escape) r ends h = tt
part-PartsEnd t s (err pattern_fuel) r ends h = ends

add_part-PartsEnd :
    (t s part : Bytes) (r : GlobResult) → PartsEnd t r → PartsEnd s (add_part part r)
add_part-PartsEnd t s part r h = elim (Bool-cases (bytes_eq part (codes "**"))) [
  | inl wild ↦ rw (wild) (add_item-PartsEnd t s none r h)
  | inr plain ↦ rw (plain) (part-PartsEnd t s (compile part) r (compile-Ends part) h)
]

compile_parts-PartsEnd :
    (fuel : ℕ) (s : Bytes) → length s ≤ fuel → PartsEnd s (compile_parts fuel s)
unfolding compile_parts
compile_parts-PartsEnd fuel [] h = λ n. absurd (n refl)
compile_parts-PartsEnd zero (c ∷ s) h = absurd (omega arith)
compile_parts-PartsEnd (suc fuel) (c ∷ s) h = elim (Option-cases (find (codes "/") (c ∷ s))) [
  | inl last ↦
      rw (compile_parts, last)
        (add_part-PartsEnd [] (c ∷ s) (c ∷ s) (compiled []) (λ n. absurd (n refl)))
  | inr (n, found) ↦
      let rest = drop 1 (drop n (c ∷ s)) in
      let shorter = length-after_find b'/' [] (c ∷ s) n found in
      rw (compile_parts, found)
        (add_part-PartsEnd rest (c ∷ s) (take n (c ∷ s)) (compile_parts fuel rest)
          (compile_parts-PartsEnd fuel rest (omega (arith, shorter))))
]

not_empty-GlobEnds : (s : Bytes) (r : GlobResult) → PartsEnd s r → GlobEnds s (not_empty r)
not_empty-GlobEnds [] (compiled []) h = refl
not_empty-GlobEnds (c ∷ s) (compiled []) h = absurd (h (λ n. cc) refl)
not_empty-GlobEnds s (compiled (i ∷ items)) h = λ n. cc
not_empty-GlobEnds s (failed (bad_pattern e)) h = h
not_empty-GlobEnds s (failed empty_glob) h = absurd h
not_empty-GlobEnds s (failed out_of_fuel) h = h

-- `compile_glob_expr` ends on every text: with at least one item, with an exception of the file
-- name patterns, or with its own exception, and with this one only if the text is empty.
pub compile_glob_expr-GlobEnds : (pattern : Bytes) → GlobEnds pattern (compile_glob_expr pattern)
unfolding compile_glob_expr
compile_glob_expr-GlobEnds pattern =
    not_empty-GlobEnds pattern (compile_parts (length pattern) pattern)
      (compile_parts-PartsEnd (length pattern) pattern (omega arith))
