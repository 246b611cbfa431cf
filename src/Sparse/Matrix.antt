-- ===== src/Sparse/Matrix.antt =====
-- Object Oriented Programming Spring/PA2/PA2/SparseMatrix.cpp: sparse matrices, as lists of cells.
-- The index of a cell is its `row_index`; its value is its column, `index`, with its data.
pub mod Cells
pub mod Sorted
pub mod Examples
use homeworks.Prelude.{
  ℕ, zero, suc, ◌+◌, Bool, ◌&&◌, List, [], ◌∷◌, ◌++◌, map, Option, none, some, ltb, ◌==◌,
  if◌then◌else◌, length,
}
use homeworks.Sparse.{Number, Vec, sort}

pub record Entry (V : Type 0) : Type 0 where
  pub column : ℕ
  pub data_of : V

abbrev pub Mat : Type 0 → Type 0
Mat V = Vec (Entry V)

abbrev pub cell : {V : Type 0} → ℕ → ℕ → V → Mat V
cell row column v = record { index = row; value = record { column = column; data_of = v } }

module _ {V : Type 0} where
  unfoldable pub is_at : ℕ → ℕ → Mat V → Bool
  is_at row column m = row == m.index && column == m.value.column

  -- The inner loop of `add`: the first cell at the place of x, and the others.
  unfoldable pub find_cell : Mat V → List (Mat V) → Option (Mat V × List (Mat V))
  unfolding is_at
  find_cell x [] = none
  find_cell x (y ∷ ys) =
      let rest = find_cell x ys in
      if is_at x.index x.value.column y
      then some (y, ys)
      else elim rest [ none ↦ none | some (z, zs) ↦ some (z, y ∷ zs) ]

  -- The outer loop of `add` from one cell on, which leaves those before it alone; one round for each
  -- cell is enough. After a sum of zero the cell is erased and the index stays.
  unfoldable pub add_cells : Number V → ℕ → List (Mat V) → List (Mat V)
  unfolding find_cell
  add_cells n zero xs = xs
  add_cells n (suc fuel) [] = []
  add_cells n (suc fuel) (x ∷ xs) =
      let rest = add_cells n fuel xs in
      elim (find_cell x xs) [
        | none ↦ x ∷ rest
        | some (y, ys) ↦
            let more = add_cells n fuel ys in
            let sum = n.plus x.value.data_of y.value.data_of in
            if n.is_zero sum then more else cell x.index x.value.column sum ∷ more
      ]

  -- `sort_1` is the sorting of SparseVector.cpp, by `row_index`.
  abbrev pub sort_1 : List (Mat V) → Option (List (Mat V))
  sort_1 d = sort d

  -- The loops of `sort_2`, which compares the rows again.
  unfoldable pub sort_2_pass : Mat V → List (Mat V) → Mat V × List (Mat V)
  sort_2_pass x [] = (x, [])
  sort_2_pass x (y ∷ rest) =
      let swapped = sort_2_pass y rest in
      let kept = sort_2_pass x rest in
      if x.index == y.index && ltb y.index x.index
      then (swapped.0, x ∷ swapped.1)
      else (kept.0, y ∷ kept.1)

  unfoldable pub sort_2_from : ℕ → List (Mat V) → List (Mat V)
  unfolding sort_2_pass
  sort_2_from zero xs = xs
  sort_2_from (suc n) [] = []
  sort_2_from (suc n) (x ∷ rest) = (sort_2_pass x rest).0 ∷ sort_2_from n (sort_2_pass x rest).1

  unfoldable pub sort_2 : List (Mat V) → Option (List (Mat V))
  unfolding sort_2_from
  sort_2 [] = none
  sort_2 (x ∷ rest) = some (sort_2_from (length (x ∷ rest)) (x ∷ rest))

  abbrev pub sort_both : List (Mat V) → Option (List (Mat V))
  sort_both d = elim (sort_1 d) [ none ↦ none | some s ↦ sort_2 s ]

  -- `operator+`
  unfoldable pub plus_matrices : Number V → List (Mat V) → List (Mat V) → Option (List (Mat V))
  unfolding sort sort_2 add_cells
  plus_matrices n a b = sort_both (add_cells n (length (a ++ b)) (a ++ b))

  abbrev pub negate_cell : Number V → Mat V → Mat V
  negate_cell n m = cell m.index m.value.column (n.negate m.value.data_of)

  -- `sparse_mat_3.alldata [i].data *= -1`
  unfoldable pub negate_nth : Number V → ℕ → List (Mat V) → List (Mat V)
  negate_nth n i [] = []
  negate_nth n zero (x ∷ xs) = negate_cell n x ∷ xs
  negate_nth n (suc i) (x ∷ xs) = x ∷ negate_nth n i xs

  unfoldable pub push_negated : Number V → ℕ → List (Mat V) → List (Mat V) → List (Mat V)
  unfolding negate_nth
  push_negated n i out [] = out
  push_negated n i out (y ∷ ys) = push_negated n (i + 1) (negate_nth n i (out ++ y ∷ [])) ys

  -- `operator-` of two matrices
  unfoldable pub minus_matrices : Number V → List (Mat V) → List (Mat V) → Option (List (Mat V))
  unfolding push_negated sort sort_2 add_cells
  minus_matrices n a b = let d = push_negated n 0 a b in sort_both (add_cells n (length d) d)

  -- `operator-` of one matrix, which negates each cell that it pushes.
  unfoldable pub negate_matrix : Number V → List (Mat V) → List (Mat V)
  negate_matrix n d = map (negate_cell n) d

  abbrev pub flip : Mat V → Mat V
  flip m = cell m.value.column m.index m.value.data_of

  -- `transpose`: what it returns, and what it leaves in the matrix itself.
  unfoldable pub transpose : List (Mat V) → Option (List (Mat V)) × List (Mat V)
  unfolding sort sort_2
  transpose d = (sort_both (map flip d), map flip d)
