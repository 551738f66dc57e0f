-- ===== src/Dym/Matrix.antt =====
-- The matrix holds the distances of the prefixes.
use bpt.Prelude.{
  ℕ, zero, suc, ◌+◌, ◌-◌, ◌≤◌, ◌<◌, false, ◌&&◌, ◌==◌, ==_iff, ◌≡◌, ◌⊎◌, inl, inr, refl, sym, ◌∙◌,
  arith, length, Bytes, Bool-cases,
}
use bpt.Dym.{
  Matrix, assign, first_row, first_column, cost, least, cell, fill_row, fill_rows,
  lev_edit_distance,
}

-- The distance of the first `col` characters of `a` from the first `row` characters of `b`.
abbrev pub distance : Bytes → Bytes → ℕ → ℕ → ℕ
distance a b zero col = col
distance a b (suc row) zero = suc row
distance a b (suc row) (suc col) =
    least (least (distance a b row (suc col) + 1) (distance a b (suc row) col + 1))
      (distance a b row col + cost a b (suc row) (suc col))

assign-here : (matrix : Matrix) (row col v : ℕ) → assign matrix row col v row col ≡ v
assign-here matrix row col v = rw ((==_iff row row).1 refl, (==_iff col col).1 refl)

-- The cells of the border and those before (row, col) hold their distances.
abbrev IsDone : ℕ → ℕ → ℕ → ℕ → Type 0
IsDone row col r c = (r ≡ 0) ⊎ (c ≡ 0) ⊎ (r < row) ⊎ ((r ≡ row) × (c < col))

abbrev IsFilled : Bytes → Bytes → ℕ → ℕ → Matrix → Type 0
IsFilled a b row col matrix =
    (r c : ℕ) → r ≤ length b → c ≤ length a → IsDone row col r c → matrix r c ≡ distance a b r c

cell-distance :
    (a b : Bytes) (row col : ℕ) (matrix : Matrix)
    → suc row ≤ length b
    → suc col ≤ length a
    → IsFilled a b (suc row) (suc col) matrix
    → cell a b matrix (suc row) (suc col) ≡ distance a b (suc row) (suc col)
cell-distance a b row col matrix h k f =
    let up = f row (suc col) (omega (arith, h)) k (inr (inr (inl (omega arith)))) in
    let left = f (suc row) col h (omega (arith, k)) (inr (inr (inr (refl, omega arith)))) in
    let corner = f row col (omega (arith, h)) (omega (arith, k)) (inr (inr (inl (omega arith)))) in
    let row_before : suc row - 1 ≡ row = omega arith in
    let col_before : suc col - 1 ≡ col = omega arith in
    rw (cell, row_before, col_before, up, left, corner)

not_here :
    (row col r c : ℕ)
    → (r == row && c == col) ≡ false
    → IsDone row (suc col) r c
    → IsDone row col r c
not_here row col r c n (inl z) = inl z
not_here row col r c n (inr (inl z)) = inr (inl z)
not_here row col r c n (inr (inr (inl l))) = inr (inr (inl l))
not_here row col r c n (inr (inr (inr (e, l)))) = inr (inr (inr (e, ground (arith, n, e, l))))

assign-IsFilled :
    (a b : Bytes) (row col : ℕ) (matrix : Matrix)
    → suc row ≤ length b
    → suc col ≤ length a
    → IsFilled a b (suc row) (suc col) matrix
    → IsFilled a b
        (suc row)
        (suc (suc col))
        (assign matrix (suc row) (suc col) (cell a b matrix (suc row) (suc col)))
assign-IsFilled a b row col matrix h k f r c hr hc d =
    elim (Bool-cases (r == suc row && c == suc col)) [
      | inr other ↦ rw (assign, other) (f r c hr hc (not_here (suc row) (suc col) r c other d))
      | inl here ↦
          let er : r ≡ suc row = ground (arith, here) in
          let ec : c ≡ suc col = ground (arith, here) in
          rw (assign, here, er, ec) (cell-distance a b row col matrix h k f)
    ]

fill_row-IsFilled :
    (a b : Bytes) (row col k : ℕ) (matrix : Matrix)
    → suc row ≤ length b
    → col + k ≡ length a
    → IsFilled a b (suc row) (suc col) matrix
    → IsFilled a b (suc row) (suc (length a)) (fill_row a b (suc row) (suc col) k matrix)
fill_row-IsFilled a b row col zero matrix h e f =
    let at_end : col ≡ length a = omega (arith, e) in λ r c hr hc d. f r c hr hc (rw (at_end) d)
fill_row-IsFilled a b row col (suc k) matrix h e f =
    fill_row-IsFilled a b row (suc col) k _ h (omega (arith, e))
      (assign-IsFilled a b row col matrix h (omega (arith, e)) f)

next_row :
    (a b : Bytes) (row : ℕ) (matrix : Matrix)
    → IsFilled a b row (suc (length a)) matrix
    → IsFilled a b (suc row) 1 matrix
next_row a b row matrix f r c hr hc (inl z) = f r c hr hc (inl z)
next_row a b row matrix f r c hr hc (inr (inl z)) = f r c hr hc (inr (inl z))
next_row a b row matrix f r c hr hc (inr (inr (inr (e, l)))) =
    f r c hr hc (inr (inl (omega (arith, l))))
next_row a b row matrix f r c hr hc (inr (inr (inl l))) = elim (Bool-cases (r == row)) [
  | inl same ↦ f r c hr hc (inr (inr (inr ((==_iff r row).0 same, omega (arith, hc)))))
  | inr other ↦ f r c hr hc (inr (inr (inl (ground (arith, other, l)))))
]

fill_rows-IsFilled :
    (a b : Bytes) (row k : ℕ) (matrix : Matrix)
    → row + k ≡ length b
    → IsFilled a b (suc row) 1 matrix
    → IsFilled a b (suc (length b)) 1 (fill_rows a b (suc row) k matrix)
fill_rows-IsFilled a b row zero matrix e f =
    let at_end : row ≡ length b = omega (arith, e) in λ r c hr hc d. f r c hr hc (rw (at_end) d)
fill_rows-IsFilled a b row (suc k) matrix e f =
    fill_rows-IsFilled a b (suc row) k _ (omega (arith, e)) (
      next_row a b (suc row) _
        (fill_row-IsFilled a b row 0 (length a) matrix (omega (arith, e)) (omega arith) f))

first_row-fills :
    (n k : ℕ) (matrix : Matrix)
    → ((c : ℕ) → c < n → matrix 0 c ≡ c)
    → (c : ℕ) → c < n + k
    → first_row n k matrix 0 c ≡ c
first_row-fills n zero matrix f c l = f c (omega (arith, l))
first_row-fills n (suc k) matrix f c l =
    first_row-fills (suc n) k (assign matrix 0 n n)
      (λ d m. elim (Bool-cases (d == n)) [
        | inl same ↦ let e = (==_iff d n).0 same in rw (e) (assign-here matrix 0 n n)
        | inr other ↦ rw (assign, other) (f d (ground (arith, other, m)))
      ])
      c (omega (arith, l))

first_column-fills :
    (n k m : ℕ) (matrix : Matrix)
    → 0 < n
    → ((c : ℕ) → c < m → matrix 0 c ≡ c)
    → ((r : ℕ) → r < n → matrix r 0 ≡ r)
    → ((c : ℕ) → c < m → first_column n k matrix 0 c ≡ c)
      × ((r : ℕ) → r < n + k → first_column n k matrix r 0 ≡ r)
first_column-fills n zero m matrix z f g = (f, λ r l. g r (omega (arith, l)))
first_column-fills n (suc k) m matrix z f g =
    let apart : (0 == n) ≡ false = ground (arith, z) in
    let (top, left) =
      first_column-fills (suc n) k m (assign matrix n 0 n) (omega arith)
        (λ c l. rw (assign, apart) (f c l))
        (λ r l. elim (Bool-cases (r == n)) [
          | inl same ↦ let e = (==_iff r n).0 same in rw (e) (assign-here matrix n 0 n)
          | inr other ↦ rw (assign, other) (g r (ground (arith, other, l)))
        ]) in
    (top, λ r l. left r (omega (arith, l)))

pub distance_left : (a b : Bytes) (r : ℕ) → distance a b r 0 ≡ r
distance_left a b zero = refl
distance_left a b (suc r) = refl

border-IsFilled :
    (a b : Bytes) (matrix : Matrix)
    → ((c : ℕ) → c < suc (length a) → matrix 0 c ≡ c)
    → ((r : ℕ) → r < suc (length b) → matrix r 0 ≡ r)
    → IsFilled a b 1 1 matrix
border-IsFilled a b matrix top left r c hr hc (inl z) = rw (z) (top c (omega (arith, hc)))
border-IsFilled a b matrix top left r c hr hc (inr (inl z)) =
    rw (z) (left r (omega (arith, hr)) ∙ sym (distance_left a b r))
border-IsFilled a b matrix top left r c hr hc (inr (inr (inl l))) =
    let z : r ≡ 0 = omega (arith, l) in rw (z) (top c (omega (arith, hc)))
border-IsFilled a b matrix top left r c hr hc (inr (inr (inr (e, l)))) =
    let z : c ≡ 0 = omega (arith, l) in
    rw (z) (left r (omega (arith, hr)) ∙ sym (distance_left a b r))

pub lev_edit_distance-distance :
    (a b : Bytes) → lev_edit_distance a b ≡ distance a b (length b) (length a)
unfolding lev_edit_distance
lev_edit_distance-distance a b =
    let top = first_row-fills 1 (length a) (λ row col. 0) (λ c l. omega (arith, l)) in
    let (first, left) =
      first_column-fills 1 (length b) (suc (length a)) (first_row 1 (length a) (λ row col. 0))
        (omega arith) (λ c l. top c (omega (arith, l)))
        (λ r l. let e : r ≡ 0 = omega (arith, l) in rw (e) (top 0 (omega arith))) in
    fill_rows-IsFilled a b 0 (length b) _ (omega arith)
      (border-IsFilled a b _ (λ c l. first c l) (λ r l. left r (omega (arith, l)))) (length b)
      (length a) (omega arith) (omega arith) (inr (inr (inl (omega arith))))
