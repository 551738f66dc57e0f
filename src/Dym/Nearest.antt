-- ===== src/Dym/Nearest.antt =====
-- What `did_you_mean` suggests.
use bpt.Prelude.{
  ℕ, ◌≤◌, some, List, [], ◌∷◌, ◌≡◌, inl, inr, refl, sym, arith, ltb, Bytes, Bool-cases, Elem,
}
use mathlib.Core.Path.{subst}
use bpt.Dym.{lev_edit_distance, nearest, did_you_mean}
use bpt.Dym.Edits.{Edits, lev_edit_distance-IsLeast}

-- A candidate that needs no more edits than each of them.
pub record IsNearest (given : Bytes) (strings : List Bytes) (s : Bytes) : Type 0 where
  pub candidate : Elem s strings
  pub distance : ℕ
  pub edits : Edits s given distance
  pub no_nearer : (t : Bytes) (m : ℕ) → Elem t strings → Edits t given m → distance ≤ m

abbrev IsBest : Bytes → List Bytes → Bytes → Type 0
IsBest given strings s =
    Elem s strings
    × ((t : Bytes) → Elem t strings → lev_edit_distance s given ≤ lev_edit_distance t given)

nearest-least :
    (given best : Bytes) (strings : List Bytes)
    → IsBest given (best ∷ strings) (nearest given best strings)
nearest-least given best [] =
    (inl refl, λ t m. elim m [ inl e ↦ rw (e) (omega arith) | inr h ↦ absurd h ])
nearest-least given best (s ∷ strings) =
    elim (Bool-cases (ltb (lev_edit_distance s given) (lev_edit_distance best given))) [
      | inl nearer ↦
          let (here, less) = nearest-least given s strings in
          let same : nearest given best (s ∷ strings) ≡ nearest given s strings =
            rw (nearest, nearer) in
          subst (IsBest given (best ∷ s ∷ strings)) (sym same) (
            inr here,
            λ t m. elim m [
              | inr m ↦ less t m
              | inl e ↦ rw (e) (ground (arith, nearer, less s (inl refl)))
            ],
          )
      | inr not_nearer ↦
          let (here, less) = nearest-least given best strings in
          let same : nearest given best (s ∷ strings) ≡ nearest given best strings =
            rw (nearest, not_nearer) in
          subst (IsBest given (best ∷ s ∷ strings)) (sym same) (
            elim here [ inl h ↦ inl h | inr h ↦ inr (inr h) ],
            λ t m. elim m [
              | inl e ↦ less t (inl e)
              | inr m ↦ elim m [
                | inr m ↦ less t (inr m)
                | inl e ↦ rw (e) (ground (arith, not_nearer, less best (inl refl)))
              ]
            ],
          )
    ]

-- What did_you_mean suggests is one of the candidates, it becomes the given text by some number of
-- insertions, deletions and replacements of characters, and no candidate becomes it by fewer.
pub did_you_mean-IsNearest :
    (given : Bytes) (strings : List Bytes) (s : Bytes)
    → did_you_mean given strings ≡ some s
    → IsNearest given strings s
did_you_mean-IsNearest given [] s h = cc
did_you_mean-IsNearest given (first ∷ strings) s h =
    let is : nearest given first strings ≡ s = cc h in
    let (here, less) = nearest-least given first strings in
    let r = nearest given first strings in
    rw (← is) (record {
      candidate = here;
      distance = lev_edit_distance r given;
      edits = (lev_edit_distance-IsLeast r given).edits;
      no_nearer =
          λ t m i e. omega (arith, less t i, (lev_edit_distance-IsLeast t given).least_of m e);
    })
