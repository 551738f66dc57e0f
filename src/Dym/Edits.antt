-- ===== src/Dym/Edits.antt =====
-- The distance is the least number of edits.
use bpt.Prelude.{
  ℕ, zero, suc, ◌+◌, ◌-◌, ◌≤◌, ◌<◌, some, [], ◌∷◌, ◌++◌, ◌==◌, ==_iff, ◌≡◌, ◌⊎◌, inl, inr, refl,
  sym, ap, arith, length, get_elem?, take, drop, Bytes, Bool-cases,
}
use bpt.Dym.{cost, least, lev_edit_distance}
use bpt.Dym.Matrix.{distance, distance_left, lev_edit_distance-distance}

-- `Edits a b n`: the text `a` becomes `b` by insertions, deletions and replacements, `n` in all.
pub data Edits : Bytes → Bytes → ℕ → Type 0 where
  done : Edits [] [] 0
  keep : {c : ℕ} {a b : Bytes} {n : ℕ} → Edits a b n → Edits (c ∷ a) (c ∷ b) n
  replaced : {c d : ℕ} {a b : Bytes} {n : ℕ} → Edits a b n → Edits (c ∷ a) (d ∷ b) (suc n)
  deleted : {c : ℕ} {a b : Bytes} {n : ℕ} → Edits a b n → Edits (c ∷ a) b (suc n)
  inserted : {d : ℕ} {a b : Bytes} {n : ℕ} → Edits a b n → Edits a (d ∷ b) (suc n)

keep-last : {a b : Bytes} {n : ℕ} (c : ℕ) → Edits a b n → Edits (a ++ c ∷ []) (b ++ c ∷ []) n
keep-last c done = keep done
keep-last c (keep e) = keep (keep-last c e)
keep-last c (replaced e) = replaced (keep-last c e)
keep-last c (deleted e) = deleted (keep-last c e)
keep-last c (inserted e) = inserted (keep-last c e)

replaced-last :
    {a b : Bytes} {n : ℕ} (c d : ℕ) → Edits a b n → Edits (a ++ c ∷ []) (b ++ d ∷ []) (suc n)
replaced-last c d done = replaced done
replaced-last c d (keep e) = keep (replaced-last c d e)
replaced-last c d (replaced e) = replaced (replaced-last c d e)
replaced-last c d (deleted e) = deleted (replaced-last c d e)
replaced-last c d (inserted e) = inserted (replaced-last c d e)

deleted-last : {a b : Bytes} {n : ℕ} (c : ℕ) → Edits a b n → Edits (a ++ c ∷ []) b (suc n)
deleted-last c done = deleted done
deleted-last c (keep e) = keep (deleted-last c e)
deleted-last c (replaced e) = replaced (deleted-last c e)
deleted-last c (deleted e) = deleted (deleted-last c e)
deleted-last c (inserted e) = inserted (deleted-last c e)

inserted-last : {a b : Bytes} {n : ℕ} (d : ℕ) → Edits a b n → Edits a (b ++ d ∷ []) (suc n)
inserted-last d done = inserted done
inserted-last d (keep e) = keep (inserted-last d e)
inserted-last d (replaced e) = replaced (inserted-last d e)
inserted-last d (deleted e) = deleted (inserted-last d e)
inserted-last d (inserted e) = inserted (inserted-last d e)

take-last : (a : Bytes) (j c : ℕ) → get_elem? a j ≡ some c → take (suc j) a ≡ take j a ++ c ∷ []
take-last [] j c h = cc
take-last (d ∷ a) zero c h = ground (arith, h)
take-last (d ∷ a) (suc j) c h = ap (λ s. d ∷ s) (take-last a j c h)

get_elem?-below : (a : Bytes) (j : ℕ) → j < length a → (c : ℕ) × (get_elem? a j ≡ some c)
get_elem?-below [] j h = ground (arith)
get_elem?-below (d ∷ a) zero h = (d, refl)
get_elem?-below (d ∷ a) (suc j) h = get_elem?-below a j (omega (arith, h))

least_or : (x y : ℕ) → (least x y ≡ x) ⊎ (least x y ≡ y)
least_or x y = ground arith

least_le : (x y : ℕ) → (least x y ≤ x) × (least x y ≤ y)
least_le x y = ground arith

deletions : (a : Bytes) (col : ℕ) → col ≤ length a → Edits (take col a) [] col
deletions a zero h = done
deletions a (suc col) h =
    let (c, at_col) = get_elem?-below a col h in
    rw (take-last a col c at_col) (deleted-last c (deletions a col (omega (arith, h))))

insertions : (b : Bytes) (row : ℕ) → row ≤ length b → Edits [] (take row b) row
insertions b zero h = done
insertions b (suc row) h =
    let (d, at_row) = get_elem?-below b row h in
    rw (take-last b row d at_row) (inserted-last d (insertions b row (omega (arith, h))))

Edits-along : {a b : Bytes} {n m : ℕ} → n ≡ m → Edits a b n → Edits a b m
Edits-along e x = rw (← e) x

Edits-least : {a b : Bytes} {n m : ℕ} → Edits a b n → Edits a b m → Edits a b (least n m)
Edits-least {n = n} {m = m} x y = elim (least_or n m) [
  | inl e ↦ Edits-along (sym e) x
  | inr e ↦ Edits-along (sym e) y
]

cost_cases :
    (a b : Bytes) (row col c d : ℕ)
    → get_elem? a col ≡ some c
    → get_elem? b row ≡ some d
    → ((c ≡ d) × (cost a b (suc row) (suc col) ≡ 0)) ⊎ (cost a b (suc row) (suc col) ≡ 1)
cost_cases a b row col c d h k =
    let row_before : suc row - 1 ≡ row = omega arith in
    let col_before : suc col - 1 ≡ col = omega arith in
    elim (Bool-cases (c == d)) [
      | inl same ↦ inl ((==_iff c d).0 same, rw (cost, row_before, col_before, h, k, same))
      | inr other ↦ inr (rw (cost, row_before, col_before, h, k, other))
    ]

cost_kept :
    (a b : Bytes) (row col c : ℕ)
    → get_elem? a col ≡ some c
    → get_elem? b row ≡ some c
    → cost a b (suc row) (suc col) ≡ 0
cost_kept a b row col c h k =
    let row_before : suc row - 1 ≡ row = omega arith in
    let col_before : suc col - 1 ≡ col = omega arith in
    rw (cost, row_before, col_before, h, k, (==_iff c c).1 refl)

last_edit :
    (a b : Bytes) (row col n : ℕ)
    → suc row ≤ length b
    → suc col ≤ length a
    → Edits (take col a) (take row b) n
    → Edits (take (suc col) a) (take (suc row) b) (n + cost a b (suc row) (suc col))
last_edit a b row col n h k e =
    let (c, at_col) = get_elem?-below a col k in
    let (d, at_row) = get_elem?-below b row h in
    rw (take-last a col c at_col, take-last b row d at_row)
      (elim (cost_cases a b row col c d at_col at_row) [
        | inl (same, free) ↦ rw (← same) (Edits-along (omega (arith, free)) (keep-last c e))
        | inr one ↦ Edits-along (omega (arith, one)) (replaced-last c d e)
      ])

distance-Edits :
    (a b : Bytes) (row col : ℕ)
    → row ≤ length b
    → col ≤ length a
    → Edits (take col a) (take row b) (distance a b row col)
distance-Edits a b zero col h k = deletions a col k
distance-Edits a b (suc row) zero h k = insertions b (suc row) h
distance-Edits a b (suc row) (suc col) h k =
    let up = distance-Edits a b row (suc col) (omega (arith, h)) k in
    let left = distance-Edits a b (suc row) col h (omega (arith, k)) in
    let corner = distance-Edits a b row col (omega (arith, h)) (omega (arith, k)) in
    let (c, at_col) = get_elem?-below a col k in
    let (d, at_row) = get_elem?-below b row h in
    let down : Edits (take (suc col) a) (take (suc row) b) (distance a b row (suc col) + 1) =
      rw (take-last b row d at_row) (Edits-along (omega arith) (inserted-last d up)) in
    let right : Edits (take (suc col) a) (take (suc row) b) (distance a b (suc row) col + 1) =
      rw (take-last a col c at_col) (Edits-along (omega arith) (deleted-last c left)) in
    Edits-least (Edits-least down right) (last_edit a b row col (distance a b row col) h k corner)

drop-cons :
    (a : Bytes) (j c : ℕ) (rest : Bytes)
    → drop j a ≡ c ∷ rest
    → (get_elem? a j ≡ some c) × (drop (suc j) a ≡ rest) × (suc j ≤ length a)
drop-cons [] zero c rest h = cc
drop-cons [] (suc j) c rest h = cc
drop-cons (d ∷ a) zero c rest h = (cc h, cc h, omega arith)
drop-cons (d ∷ a) (suc j) c rest h =
    let (e, t, l) = drop-cons a j c rest h in (e, t, omega (arith, l))

drop-nil : (a : Bytes) (j : ℕ) → drop j a ≡ [] → length a ≤ j
drop-nil [] j h = omega arith
drop-nil (d ∷ a) zero h = cc
drop-nil (d ∷ a) (suc j) h = omega (arith, drop-nil a j h)

distance_corner :
    (a b : Bytes) (row col : ℕ)
    → distance a b (suc row) (suc col) ≤ distance a b row col + cost a b (suc row) (suc col)
distance_corner a b row col =
    (least_le (least (distance a b row (suc col) + 1) (distance a b (suc row) col + 1))
      (distance a b row col + cost a b (suc row) (suc col))).1

distance_deleted :
    (a b : Bytes) (row col : ℕ) → distance a b row (suc col) ≤ distance a b row col + 1
distance_deleted a b zero col = omega arith
distance_deleted a b (suc row) col =
    let up = distance a b row (suc col) + 1 in
    let left = distance a b (suc row) col + 1 in
    omega (
      arith,
      least_le (least up left) (distance a b row col + cost a b (suc row) (suc col)),
      least_le up left,
    )

distance_inserted :
    (a b : Bytes) (row col : ℕ) → distance a b (suc row) col ≤ distance a b row col + 1
distance_inserted a b row zero = omega (arith, distance_left a b row)
distance_inserted a b row (suc col) =
    let up = distance a b row (suc col) + 1 in
    let left = distance a b (suc row) col + 1 in
    omega (
      arith,
      least_le (least up left) (distance a b row col + cost a b (suc row) (suc col)),
      least_le up left,
    )

cost_le : (a b : Bytes) (row col : ℕ) → cost a b row col ≤ 1
cost_le a b row col = ground arith

-- Each edit of the rest adds at most one to the distance of the prefixes.
distance-rest :
    (a b x y : Bytes) (n row col : ℕ)
    → Edits x y n
    → drop col a ≡ x
    → drop row b ≡ y
    → row ≤ length b
    → col ≤ length a
    → distance a b (length b) (length a) ≤ distance a b row col + n
distance-rest a b _ _ _ row col done h k lr lc =
    let at_b : length b ≡ row = omega (arith, drop-nil b row k, lr) in
    let at_a : length a ≡ col = omega (arith, drop-nil a col h, lc) in rw (at_b, at_a) (omega arith)
distance-rest a b _ _ n row col (keep {c = c} e) h k lr lc =
    let (ha, ta, la) = drop-cons a col c _ h in
    let (hb, tb, lb) = drop-cons b row c _ k in
    let next = distance-rest a b _ _ n (suc row) (suc col) e ta tb lb la in
    omega (arith, next, cost_kept a b row col c ha hb, distance_corner a b row col)
distance-rest a b _ _ _ row col (replaced {c = c} {d = d} {n = n} e) h k lr lc =
    let (ha, ta, la) = drop-cons a col c _ h in
    let (hb, tb, lb) = drop-cons b row d _ k in
    let next = distance-rest a b _ _ n (suc row) (suc col) e ta tb lb la in
    omega (arith, next, cost_le a b (suc row) (suc col), distance_corner a b row col)
distance-rest a b _ _ _ row col (deleted {c = c} {n = n} e) h k lr lc =
    let (ha, ta, la) = drop-cons a col c _ h in
    let next = distance-rest a b _ _ n row (suc col) e ta k lr la in
    omega (arith, next, distance_deleted a b row col)
distance-rest a b _ _ _ row col (inserted {d = d} {n = n} e) h k lr lc =
    let (hb, tb, lb) = drop-cons b row d _ k in
    let next = distance-rest a b _ _ n (suc row) col e h tb lb lc in
    omega (arith, next, distance_inserted a b row col)

-- `lev_edit_distance` is the number of some edits of the first text to the second one, and no edits
-- are fewer.
pub record IsLeast (a b : Bytes) (n : ℕ) : Type 0 where
  pub edits : Edits a b n
  pub least_of : (m : ℕ) → Edits a b m → n ≤ m

take_all : (s : Bytes) → take (length s) s ≡ s
take_all [] = refl
take_all (c ∷ s) = ap (λ t. c ∷ t) (take_all s)

-- `lev_edit_distance` is the least number of insertions, deletions and replacements.
pub lev_edit_distance-IsLeast : (a b : Bytes) → IsLeast a b (lev_edit_distance a b)
lev_edit_distance-IsLeast a b = rw (lev_edit_distance-distance a b) (record {
  edits =
      rw (take_all a, take_all b) at
        (distance-Edits a b (length b) (length a) (omega arith) (omega arith));
  least_of =
      λ m e. omega (arith, distance-rest a b a b m 0 0 e refl refl (omega arith) (omega arith));
})
