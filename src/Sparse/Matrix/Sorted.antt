-- ===== src/Sparse/Matrix/Sorted.antt =====
-- What the operations on matrices give: sorted rows, and the data of every place.
use homeworks.Prelude.{
  ℕ, zero, suc, ◌≡◌, ◌⊎◌, inl, inr, refl, sym, ap, ◌∙◌, ◌&&◌, List, [], ◌∷◌, ◌++◌, map, Option,
  none, some, ltb, ◌==◌, if◌then◌else◌, if_cases, length, arith, IsPermutation, subst,
}
use homeworks.Sparse.{Number, sort, sort_from}
use homeworks.Sparse.Order.{IsSorted, sort_from-IsPermutation, sort_from-IsSorted}
use homeworks.Sparse.Sum.{paired}
use homeworks.Sparse.Matrix.{
  Mat, is_at, add_cells, sort_2_pass, sort_2_from, sort_2, sort_both, plus_matrices, flip,
  transpose,
}
use homeworks.Sparse.Matrix.Cells.{cells, cells-append, cells-IsPermutation, add_cells-paired}

module _ {V : Type 0} where
  sort_2_pass-same : (x : Mat V) (rest : List (Mat V)) → sort_2_pass x rest ≡ (x, rest)
  unfolding sort_2_pass
  sort_2_pass-same x [] = refl
  sort_2_pass-same x (y ∷ rest) =
      if_cases (λ (r : Mat V × List (Mat V)). r ≡ (x, y ∷ rest))
        (x.index == y.index && ltb y.index x.index) (λ e. absurd (ground arith))
        (λ _. ap (λ (r : Mat V × List (Mat V)). (r.0, y ∷ r.1)) (sort_2_pass-same x rest))

  sort_2_from-same : (k : ℕ) (xs : List (Mat V)) → sort_2_from k xs ≡ xs
  unfolding sort_2_from
  sort_2_from-same zero xs = refl
  sort_2_from-same (suc k) [] = refl
  sort_2_from-same (suc k) (x ∷ xs) =
      ap (λ (r : Mat V × List (Mat V)). r.0 ∷ sort_2_from k r.1) (sort_2_pass-same x xs)
      ∙ ap (◌∷◌ x) (sort_2_from-same k xs)

  sort_2-same : (x : Mat V) (xs : List (Mat V)) → sort_2 (x ∷ xs) ≡ some (x ∷ xs)
  unfolding sort_2
  sort_2-same x xs = ap some (sort_2_from-same (length (x ∷ xs)) (x ∷ xs))

  cons-nil : {x : Mat V} {xs : List (Mat V)} → x ∷ xs ≡ [] → ⊥
  cons-nil h = cc

  -- What the two sorts make of a list: they are undefined on no cells, and give the rows of others
  -- in ascending order, with the same data at each place.
  abbrev pub Sorts : List (Mat V) → Option (List (Mat V)) → Type 0
  Sorts d out =
      ((d ≡ []) × (out ≡ none))
      ⊎ ((s : List (Mat V)) × (out ≡ some s)
          × IsSorted s
          × ((r c : ℕ) → IsPermutation (cells r c d) (cells r c s)))

  sort_both-Sorts : (d : List (Mat V)) → Sorts d (sort_both d)
  unfolding sort sort_2 sort_from
  sort_both-Sorts [] = inl (refl, refl)
  sort_both-Sorts (x ∷ rest) =
      let p = sort_from-IsPermutation (length (x ∷ rest)) (x ∷ rest) in
      inr (
        sort_from (length (x ∷ rest)) (x ∷ rest),
        sort_2-same _ _,
        sort_from-IsSorted (length (x ∷ rest)) (x ∷ rest) (omega arith),
        λ r c. cells-IsPermutation r c p,
      )

  cells-flip : (r c : ℕ) (d : List (Mat V)) → cells r c (map flip d) ≡ cells c r d
  unfolding is_at
  cells-flip r c [] = refl
  cells-flip r c (m ∷ d) =
      let turned : is_at r c (flip m) ≡ is_at c r m = ground arith in
      rw turned (ap (λ ds. if is_at c r m then m.value.data_of ∷ ds else ds) (cells-flip r c d))

  -- `transpose` is undefined on no cells. On others the matrix that it returns has its rows in
  -- ascending order and at row r and column c what the matrix had at row c and column r, and so has
  -- afterwards the matrix itself: its cells are the old ones in their old order, each with its row
  -- and column exchanged.
  pub transpose-cells :
      (d : List (Mat V)) (r c : ℕ)
      → ((transpose d).1 ≡ map flip d)
        × (cells r c (transpose d).1 ≡ cells c r d)
        × (((d ≡ []) × ((transpose d).0 ≡ none))
            ⊎ ((s : List (Mat V)) × ((transpose d).0 ≡ some s)
                × IsSorted s
                × IsPermutation (cells c r d) (cells r c s)))
  unfolding transpose
  transpose-cells [] r c = (refl, refl, inl (refl, refl))
  transpose-cells (m ∷ d) r c = (
    refl,
    cells-flip r c (m ∷ d),
    elim (sort_both-Sorts (map flip (m ∷ d))) [
      | inl (none_left, _) ↦ absurd (cons-nil none_left)
      | inr (s, e, sorted, kept) ↦ inr (
        s,
        e,
        sorted,
        subst (λ ds. IsPermutation ds (cells r c s)) (cells-flip r c (m ∷ d)) (kept r c),
      )
    ],
  )

-- `operator+` is undefined where no cell is left. Otherwise the rows of the sum are in ascending
-- order, and at each place are, in some order, the sums in pairs of the data that the operands have
-- there, without those that are zero.
pub plus_matrices-cells :
    {V : Type 0} (n : Number V) (a b : List (Mat V))
    → ((plus_matrices n a b ≡ none) × ((r c : ℕ) → paired n (cells r c a ++ cells r c b) ≡ []))
      ⊎ ((d : List (Mat V)) × (plus_matrices n a b ≡ some d)
          × IsSorted d
          × ((r c : ℕ) → IsPermutation (paired n (cells r c a ++ cells r c b)) (cells r c d)))
unfolding plus_matrices
plus_matrices-cells n a b =
    let sum = add_cells n (length (a ++ b)) (a ++ b) in
    let at_cell = λ (r c : ℕ).
      add_cells-paired n r c (length (a ++ b)) (a ++ b) (omega arith)
      ∙ ap (paired n) (cells-append r c a b) in
    elim (sort_both-Sorts sum) [
      | inl (gone, e) ↦ inl (e, λ r c. sym (at_cell r c) ∙ ap (cells r c) gone)
      | inr (d, e, sorted, kept) ↦ inr (
        d,
        e,
        sorted,
        λ r c. subst (λ ds. IsPermutation ds (cells r c d)) (at_cell r c) (kept r c),
      )
    ]
