-- ===== src/Usage/Map.antt =====
-- The map of usage requirements: its keys are in order, and `add` and `get` behave as a dictionary.
use bpt.Prelude.{
  true, false, Option, Option-cases, none, some, [], ◌∷◌, ◌≡◌, inl, inr, refl, ap, arith, All,
  All-zip, Bool-cases, Bytes, if◌then◌else◌,
}
use bpt.Usage.{Usage, Library, Reqs, get, add, place, usage_eq, usage_eq_iff, bytes_lt, usage_lt}

-- The keys of the map are in ascending order, hence distinct.
abbrev pub IsMap : Reqs → Type 0
IsMap [] = Unit
IsMap ((k, lib) ∷ reqs) = All (λ e. usage_lt k e.0 ≡ true) reqs × IsMap reqs

bytes_lt_irrefl : (s : Bytes) → bytes_lt s s ≡ false
unfolding bytes_lt
bytes_lt_irrefl [] = refl
bytes_lt_irrefl (a ∷ s) = ground (arith, bytes_lt_irrefl s)

bytes_lt_trans : (s t u : Bytes) → bytes_lt s t ≡ true → bytes_lt t u ≡ true → bytes_lt s u ≡ true
unfolding bytes_lt
bytes_lt_trans [] [] u h k = cc
bytes_lt_trans [] (b ∷ t) [] h k = k
bytes_lt_trans [] (b ∷ t) (c ∷ u) h k = refl
bytes_lt_trans (a ∷ s) [] u h k = cc
bytes_lt_trans (a ∷ s) (b ∷ t) [] h k = cc
bytes_lt_trans (a ∷ s) (b ∷ t) (c ∷ u) h k = ground (arith, bytes_lt_trans s t u)

bytes_lt_total : (s t : Bytes) → bytes_lt s t ≡ false → bytes_lt t s ≡ false → s ≡ t
unfolding bytes_lt
bytes_lt_total [] [] h k = refl
bytes_lt_total [] (b ∷ t) h k = cc
bytes_lt_total (a ∷ s) [] h k = cc
bytes_lt_total (a ∷ s) (b ∷ t) h k = ground (arith, bytes_lt_total s t)

bytes_lt_asym : (s t : Bytes) → bytes_lt s t ≡ true → bytes_lt t s ≡ false
bytes_lt_asym s t h = ground (arith, bytes_lt_trans s t s, bytes_lt_irrefl s)

usage_lt_irrefl : (u : Usage) → usage_lt u u ≡ false
unfolding usage_lt
usage_lt_irrefl u = ground (arith, bytes_lt_irrefl u.namespace_, bytes_lt_irrefl u.name)

usage_lt_trans : (a b c : Usage) → usage_lt a b ≡ true → usage_lt b c ≡ true → usage_lt a c ≡ true
unfolding usage_lt
usage_lt_trans a b c h k = ground (
  arith,
  bytes_lt_trans a.namespace_ b.namespace_ c.namespace_,
  bytes_lt_trans a.name b.name c.name,
  bytes_lt_total a.namespace_ b.namespace_,
  bytes_lt_total b.namespace_ c.namespace_,
  bytes_lt_irrefl a.namespace_,
)

usage_lt_total : (a b : Usage) → usage_lt a b ≡ false → usage_lt b a ≡ false → a ≡ b
unfolding usage_lt
usage_lt_total a b h k =
    ground (arith, bytes_lt_total a.namespace_ b.namespace_, bytes_lt_total a.name b.name)

usage_lt-ne : (a b : Usage) → usage_lt a b ≡ true → usage_eq a b ≡ false
usage_lt-ne a b h = elim (Bool-cases (usage_eq a b)) [
  | inl e ↦ cc (ap (usage_lt a) ((usage_eq_iff a b).0 e), usage_lt_irrefl a)
  | inr e ↦ e
]

-- The map holds the library of each of its entries under the entry's key.
pub get-of_IsMap : (reqs : Reqs) → IsMap reqs → All (λ e. get reqs e.0 ≡ some e.1) reqs
unfolding get
get-of_IsMap [] h = tt
get-of_IsMap ((k, l) ∷ reqs) h = (
  rw ((usage_eq_iff k k).1 refl),
  All-zip reqs (λ e lt here. rw (usage_lt-ne k e.0 lt) here) h.0 (get-of_IsMap reqs h.1),
)

All-place :
    (k key : Usage) (lib : Library) (reqs : Reqs)
    → usage_lt k key ≡ true
    → All (λ e. usage_lt k e.0 ≡ true) reqs
    → All (λ e. usage_lt k e.0 ≡ true) (place key lib reqs)
unfolding place
All-place k key lib [] lt h = (lt, tt)
All-place k key lib ((j, l) ∷ reqs) lt h = elim (Bool-cases (usage_lt key j)) [
  | inl e ↦ rw e (lt, h)
  | inr e ↦ rw e (h.0, All-place k key lib reqs lt h.1)
]

above_trans :
    (k j : Usage) (reqs : Reqs)
    → usage_lt k j ≡ true
    → All (λ e. usage_lt j e.0 ≡ true) reqs
    → All (λ e. usage_lt k e.0 ≡ true) reqs
above_trans k j [] lt h = tt
above_trans k j ((i, l) ∷ reqs) lt h = (usage_lt_trans k j i lt h.0, above_trans k j reqs lt h.1)

-- An entry with a new key is put in its place.
place-IsMap :
    (key : Usage) (lib : Library) (reqs : Reqs)
    → IsMap reqs
    → get reqs key ≡ none
    → IsMap (place key lib reqs)
unfolding place get
place-IsMap key lib [] h absent = (tt, tt)
place-IsMap key lib ((k, l) ∷ reqs) h absent = elim (Bool-cases (usage_lt key k)) [
  | inl e ↦ rw e ((e, above_trans key k reqs e h.0), h)
  | inr e ↦
      let apart : usage_eq k key ≡ false = ground arith in
      let below : usage_lt k key ≡ true =
        ground (arith, usage_lt_total k key, usage_eq_iff k key) in
      let absent' : get reqs key ≡ none = rw apart at absent in
      rw e (All-place k key lib reqs below h.0, place-IsMap key lib reqs h.1 absent')
]

get-place :
    (key : Usage) (lib : Library) (reqs : Reqs) (w : Usage)
    → get reqs key ≡ none
    → get (place key lib reqs) w ≡ (if usage_eq key w then some lib else get reqs w)
unfolding place get
get-place key lib [] w absent = refl
get-place key lib ((k, l) ∷ reqs) w absent =
    ground
      (arith, get-place key lib reqs w, usage_eq_iff k key, usage_eq_iff k w, usage_eq_iff key w)

-- What `add` promises: the exception exactly for a key that the map holds; else a map in order,
-- with the new entry and all others as they were.
abbrev pub Adds : Reqs → Usage → Library → Option Reqs → Type 0
Adds reqs ident lib none = (old : Library) × (get reqs ident ≡ some old)
Adds reqs ident lib (some reqs') =
    (get reqs ident ≡ none)
    × IsMap reqs'
    × ((w : Usage) → get reqs' w ≡ (if usage_eq ident w then some lib else get reqs w))

-- Over a map in order `add` reports a duplicate exactly for a key that is there, and else returns
-- a map in order in which the key holds the new library and every other key what it held.
pub add-Adds :
    (reqs : Reqs) (ident : Usage) (lib : Library)
    → IsMap reqs
    → Adds reqs ident lib (add reqs ident lib)
unfolding add
add-Adds reqs ident lib h = elim (Option-cases (get reqs ident)) [
  | inl absent ↦
      rw (absent, add)
        (absent, place-IsMap ident lib reqs h absent, λ w. get-place ident lib reqs w absent)
  | inr (old, here) ↦ rw (here, add) (old, here)
]
