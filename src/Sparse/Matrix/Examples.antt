-- ===== src/Sparse/Matrix/Examples.antt =====
-- The theorems on sparse matrices at concrete ones, with 64-bit words for data.
use homeworks.Prelude.{
  ℕ, ◌+◌, ◌*◌, ◌-◌, ◌%◌, ◌^◌, ◌≡◌, ◌⊎◌, refl, List, map, [], ◌∷◌, ◌++◌, none, some, ◌==◌,
  IsPermutation,
}
use homeworks.Sparse.{Number, sort, sort_from}
use homeworks.Sparse.Order.{IsSorted}
use homeworks.Sparse.Sum.{paired}
use homeworks.Sparse.Matrix.{
  flip, Mat, cell, add_cells, sort_2, plus_matrices, minus_matrices, negate_matrix, transpose, flip,
}
use homeworks.Sparse.Matrix.Cells.{cells}
use homeworks.Sparse.Matrix.Sorted.{plus_matrices-cells, transpose-cells}

abbrev word : Number ℕ
word = record {
  plus = λ a b. (a + b) % 2 ^ 64;
  times = λ a b. (a * b) % 2 ^ 64;
  negate = λ a. (2 ^ 64 - a) % 2 ^ 64;
  is_zero = λ a. a == 0;
  nought = 0;
}

abbrev left : List (Mat ℕ)
left = cell 2 1 5 ∷ cell 1 3 4 ∷ []

abbrev right : List (Mat ℕ)
right = cell 1 2 8 ∷ cell 2 1 (2 ^ 64 - 5) ∷ []

plus_matrices-cells_example :
    ((plus_matrices word left right ≡ none)
      × ((r c : ℕ) → paired word (cells r c left ++ cells r c right) ≡ []))
    ⊎ ((d : List (Mat ℕ)) × (plus_matrices word left right ≡ some d)
        × IsSorted d
        × ((r c : ℕ)
            → IsPermutation (paired word (cells r c left ++ cells r c right)) (cells r c d)))
plus_matrices-cells_example = plus_matrices-cells word left right

transpose-cells_example :
    ((transpose left).1 ≡ map flip left)
    × (cells 3 1 (transpose left).1 ≡ cells 1 3 left)
    × (((left ≡ []) × ((transpose left).0 ≡ none))
        ⊎ ((s : List (Mat ℕ)) × ((transpose left).0 ≡ some s)
            × IsSorted s
            × IsPermutation (cells 1 3 left) (cells 3 1 s)))
transpose-cells_example = transpose-cells left 3 1

-- The cells of row 1 of the sum are left in the order 3, 2 of their columns.
plus_test : plus_matrices word left right ≡ some (cell 1 3 4 ∷ cell 1 2 8 ∷ [])
unfolding plus_matrices add_cells sort sort_from sort_2
plus_test = refl

-- As with vectors, `operator-` negates cells of the first matrix.
minus_test :
    minus_matrices word left (cell 1 2 8 ∷ [])
    ≡ some (cell 1 3 4 ∷ cell 1 2 8 ∷ cell 2 1 (2 ^ 64 - 5) ∷ [])
unfolding minus_matrices add_cells sort sort_from sort_2
minus_test = refl

negate_test : negate_matrix word (cell 1 2 8 ∷ []) ≡ cell 1 2 (2 ^ 64 - 8) ∷ []
unfolding negate_matrix
negate_test = refl
