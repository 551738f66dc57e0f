-- ===== src/Libman/Print.antt =====
-- Files that `write_pairs` writes are read back by `parse_string`.
use mathlib.Core.List.{reverse, reverse-append, reverse-cons, reverse-reverse}
use bpt.Prelude.{
  ℕ, false, some, List, [], ◌∷◌, ◌++◌, ◌≡◌, refl, sym, ap, arith, Bytes, All, codes, append_assoc,
  append-nil, ◌==◌,
}
use bpt.Text.{trim_view}
use bpt.Text.Trim.{Bare, Trimmed, skip_space_of_Bare, trim_view_of_Trimmed}
use bpt.Libman.{
  Pair, ok, ◌>>=◌, seek_value, is_comment, parse_line, parse_from, parse_string, write_pairs,
}

abbrev pub Without : ℕ → Bytes → Type 0
Without c s = All (λ x. (x == c) ≡ false) s

abbrev pub NoComment : Bytes → Type 0
NoComment [] = Unit
NoComment (c ∷ s) = (c == b'#') ≡ false

-- A pair that its line can carry: no blank at an end of the key or the value, no newline in either,
-- no colon in the key, and no # at its start.
pub record Writable (p : Pair) : Type 0 where
  pub trimmed : Trimmed p.key × Trimmed p.value
  pub lines : Without 10 p.key × Without 10 p.value
  pub colon : Without b':' p.key
  pub comment : NoComment p.key

seek_value-key :
    (before key v : Bytes)
    → Without b':' key
    → seek_value before (key ++ (codes ": " ++ v)) ≡ some (before ++ key, b' ' ∷ v)
unfolding seek_value
seek_value-key before [] v h = ap (λ b. some (b, b' ' ∷ v)) (sym (append-nil before))
seek_value-key before (c ∷ []) v h = ground (arith, h.0)
seek_value-key before (c ∷ d ∷ key) v h = ground (
  arith,
  h.0,
  seek_value-key (before ++ c ∷ []) (d ∷ key) v h.1,
  append_assoc before (c ∷ []) (d ∷ key),
)

seek_value-key_end :
    (before key : Bytes)
    → Without b':' key
    → seek_value before (key ++ codes ":") ≡ some (before ++ key, [])
unfolding seek_value
seek_value-key_end before [] h = ap (λ b. some (b, [])) (sym (append-nil before))
seek_value-key_end before (c ∷ []) h = ground (arith, h.0)
seek_value-key_end before (c ∷ d ∷ key) h = ground (
  arith,
  h.0,
  seek_value-key_end (before ++ c ∷ []) (d ∷ key) h.1,
  append_assoc before (c ∷ []) (d ∷ key),
)

Bare-append : (s t : Bytes) → Bare s → Bare t → Bare (s ++ t)
Bare-append [] t h k = k
Bare-append (c ∷ s) t h k = h

Bare-longer : (s : Bytes) (c : ℕ) (t : Bytes) → Bare (s ++ c ∷ []) → Bare ((s ++ c ∷ []) ++ t)
Bare-longer [] c t h = h
Bare-longer (x ∷ s) c t h = h

-- The text of a pair begins and ends bare, unless the value is empty.
line_Trimmed :
    (key : Bytes) (c : ℕ) (v : Bytes)
    → Trimmed key
    → Trimmed (c ∷ v)
    → Trimmed (key ++ (codes ": " ++ c ∷ v))
line_Trimmed key c v h k = (
  Bare-append key (codes ": " ++ c ∷ v) h.0 refl,
  rw
      (
        reverse-append key (codes ": " ++ c ∷ v),
        reverse-append (codes ": ") (c ∷ v),
        reverse-cons c v,
        append_assoc (reverse v ++ c ∷ []) (reverse (codes ": ")) (reverse key),
      )
      (Bare-longer (reverse v) c (reverse (codes ": ") ++ reverse key)
        (rw (← reverse-cons c v) k.1)),
)

trim_view_no_value : (key : Bytes) → Trimmed key → trim_view (key ++ codes ": ") ≡ key ++ codes ":"
unfolding trim_view
trim_view_no_value key h = rw (
  skip_space_of_Bare (key ++ codes ": ") (Bare-append key (codes ": ") h.0 refl),
  reverse-append key (codes ": "),
  reverse-cons b':' (reverse key),
  reverse-reverse key,
)

is_comment-line : (key t : Bytes) → NoComment key → is_comment (key ++ b':' ∷ t) ≡ false
is_comment-line [] t h = refl
is_comment-line (c ∷ key) t h = h

trim_view_blank : (v : Bytes) → Trimmed v → trim_view (b' ' ∷ v) ≡ v
unfolding trim_view
trim_view_blank v h = trim_view_of_Trimmed v h

-- The line of a pair is parsed to that pair.
parse_line_fields :
    (pairs : List Pair) (k v : Bytes)
    → Writable (record { key = k; value = v })
    → parse_line pairs (k ++ (codes ": " ++ v)) ≡ ok (pairs ++ (record { key = k; value = v }) ∷ [])
unfolding parse_line
parse_line_fields pairs k [] w = rw (
  trim_view_no_value k w.trimmed.0,
  is_comment-line k [] w.comment,
  seek_value-key_end [] k w.colon,
  trim_view_of_Trimmed k w.trimmed.0,
  trim_view_of_Trimmed [] (tt, tt),
)
parse_line_fields pairs k (c ∷ v) w = rw (
  trim_view_of_Trimmed (k ++ (codes ": " ++ c ∷ v)) (line_Trimmed k c v w.trimmed.0 w.trimmed.1),
  is_comment-line k (b' ' ∷ c ∷ v) w.comment,
  seek_value-key [] k (c ∷ v) w.colon,
  trim_view_of_Trimmed k w.trimmed.0,
  trim_view_blank (c ∷ v) w.trimmed.1,
)

-- A line is collected up to its newline, and then parsed.
parse_from-line :
    (pairs : List Pair) (line t s : Bytes)
    → Without 10 t
    → parse_from pairs line (t ++ 10 ∷ s)
      ≡ (parse_line pairs (line ++ t) >>= λ more. parse_from more [] s)
unfolding parse_from
parse_from-line pairs line [] s h = rw (append-nil line)
parse_from-line pairs line (c ∷ t) s h =
    ground
      (arith, h.0, parse_from-line pairs (line ++ c ∷ []) t s h.1, append_assoc line (c ∷ []) t)

Without-append : (c : ℕ) (s t : Bytes) → Without c s → Without c t → Without c (s ++ t)
Without-append c [] t h k = k
Without-append c (x ∷ s) t h k = (h.0, Without-append c s t h.1 k)

parse_from-write_pairs :
    (done pairs : List Pair)
    → All Writable pairs
    → parse_from done [] (write_pairs pairs) ≡ ok (done ++ pairs)
unfolding parse_from write_pairs
parse_from-write_pairs done [] w = ap ok (sym (append-nil done))
parse_from-write_pairs done (p ∷ pairs) w =
    let line = p.key ++ (codes ": " ++ p.value) in
    rw (
      ← append_assoc p.key (codes ": " ++ p.value) (10 ∷ write_pairs pairs),
      parse_from-line done [] line (write_pairs pairs)
          (Without-append 10 p.key (codes ": " ++ p.value) w.0.lines.0 (refl, (refl, w.0.lines.1))),
      parse_line_fields done p.key p.value w.0,
      parse_from-write_pairs (done ++ p ∷ []) pairs w.1,
      append_assoc done (p ∷ []) pairs,
    )

-- When no key and no value has a blank at either end or a newline in it, no key has a colon in it
-- and no key begins with #, `parse_string` reads what `write_pairs` writes for these pairs back as
-- the same pairs, in order.
pub parse_string-write_pairs :
    (pairs : List Pair) → All Writable pairs → parse_string (write_pairs pairs) ≡ ok pairs
unfolding parse_string
parse_string-write_pairs pairs w = parse_from-write_pairs [] pairs w
