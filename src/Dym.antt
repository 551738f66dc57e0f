-- ===== src/Dym.antt =====
-- src/bpt/dym.cpp and dym.hpp: the edit distance of two texts, by a matrix, and the candidate that
-- is nearest to what was given.
pub mod Matrix
pub mod Edits
pub mod Nearest
mod Tests
use mathlib.Core.Option
use bpt.Prelude.{
  ℕ, zero, suc, ◌+◌, ◌-◌, Bool, true, false, ◌&&◌, Option, none, some, List, [], ◌∷◌, ◌==◌, ltb,
  if◌then◌else◌, length, get_elem?, Bytes,
}

-- A matrix by row and column.
abbrev pub Matrix : Type 0
Matrix = ℕ → ℕ → ℕ

abbrev pub assign : Matrix → ℕ → ℕ → ℕ → Matrix
assign matrix row col v r c = if r == row && c == col then v else matrix r c

-- The two loops that fill the first row and the first column, from `n` on.
abbrev pub first_row : ℕ → ℕ → Matrix → Matrix
first_row n zero matrix = matrix
first_row n (suc k) matrix = first_row (suc n) k (assign matrix 0 n n)

abbrev pub first_column : ℕ → ℕ → Matrix → Matrix
first_column n zero matrix = matrix
first_column n (suc k) matrix = first_column (suc n) k (assign matrix n 0 n)

abbrev pub same_char : Option ℕ → Option ℕ → Bool
same_char (some c) (some d) = c == d
same_char none _ = false
same_char (some c) none = false

abbrev pub cost : Bytes → Bytes → ℕ → ℕ → ℕ
cost a b row col = if same_char (get_elem? a (col - 1)) (get_elem? b (row - 1)) then 0 else 1

abbrev pub least : ℕ → ℕ → ℕ
least x y = if ltb y x then y else x

abbrev pub cell : Bytes → Bytes → Matrix → ℕ → ℕ → ℕ
cell a b matrix row col =
    least (least (matrix (row - 1) col + 1) (matrix row (col - 1) + 1))
      (matrix (row - 1) (col - 1) + cost a b row col)

-- The loop over the product of the rows and the columns.
abbrev pub fill_row : Bytes → Bytes → ℕ → ℕ → ℕ → Matrix → Matrix
fill_row a b row col zero matrix = matrix
fill_row a b row col (suc k) matrix =
    fill_row a b row (suc col) k (assign matrix row col (cell a b matrix row col))

abbrev pub fill_rows : Bytes → Bytes → ℕ → ℕ → Matrix → Matrix
fill_rows a b row zero matrix = matrix
fill_rows a b row (suc k) matrix = fill_rows a b (suc row) k (fill_row a b row 1 (length a) matrix)

unfoldable pub lev_edit_distance : Bytes → Bytes → ℕ
lev_edit_distance a b =
    fill_rows a b 1 (length b) (first_column 1 (length b) (first_row 1 (length a) (λ row col. 0)))
      (length b) (length a)

-- std::ranges::min_element: the first of the least.
abbrev pub nearest : Bytes → Bytes → List Bytes → Bytes
nearest given best [] = best
nearest given best (s ∷ strings) =
    if ltb (lev_edit_distance s given) (lev_edit_distance best given)
    then nearest given s strings
    else nearest given best strings

abbrev pub did_you_mean : Bytes → List Bytes → Option Bytes
did_you_mean given [] = none
did_you_mean given (s ∷ strings) = some (nearest given s strings)
