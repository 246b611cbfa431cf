-- ===== src/Sparse/Matrix/Cells.antt =====
-- What the operations on matrices leave at each cell.
use homeworks.Prelude.{
  ℕ, zero, suc, ◌+◌, ◌≤◌, ◌≡◌, inl, inr, refl, sym, ap, ◌∙◌, true, false, List, [], ◌∷◌, ◌++◌, none,
  some, if◌then◌else◌, if_cases, Bool-cases, Option-cases, length, arith, IsPermutation, same, cons,
  swap, trans, subst,
}
use mathlib.Core.Option.{some-injective, none-ne-some}
use homeworks.Sparse.{Number}
use homeworks.Sparse.Sum.{paired}
use homeworks.Sparse.Matrix.{Mat, cell, is_at, find_cell, add_cells}

module _ {V : Type 0} where
  -- The data at a cell, in order.
  abbrev pub cells : ℕ → ℕ → List (Mat V) → List V
  cells r c [] = []
  cells r c (m ∷ d) = if is_at r c m then m.value.data_of ∷ cells r c d else cells r c d

  pub cells-append :
      (r c : ℕ) (a b : List (Mat V)) → cells r c (a ++ b) ≡ cells r c a ++ cells r c b
  cells-append r c [] b = refl
  cells-append r c (m ∷ a) b =
      if_cases
        (λ xs.
          xs ≡ (if is_at r c m then m.value.data_of ∷ cells r c a else cells r c a) ++ cells r c b)
        (is_at r c m) (λ e. rw e (ap (◌∷◌ m.value.data_of) (cells-append r c a b)))
        (λ e. rw e (cells-append r c a b))

  pub cells-IsPermutation :
      (r c : ℕ) {xs ys : List (Mat V)}
      → IsPermutation xs ys
      → IsPermutation (cells r c xs) (cells r c ys)
  cells-IsPermutation r c same = same
  cells-IsPermutation r c (cons {x} p) = elim (Bool-cases (is_at r c x)) [
    | inl e ↦ rw e (cons (cells-IsPermutation r c p))
    | inr e ↦ rw e (cells-IsPermutation r c p)
  ]
  cells-IsPermutation r c (swap {x} {y}) = elim (Bool-cases (is_at r c x)) [
    | inl e ↦ elim (Bool-cases (is_at r c y)) [ inl f ↦ rw (e, f) swap | inr f ↦ rw (e, f) same ]
    | inr e ↦ rw e same
  ]
  cells-IsPermutation r c (trans p q) =
      trans (cells-IsPermutation r c p) (cells-IsPermutation r c q)

  -- A cell stands at the place of x exactly where x does.
  is_at-same :
      (r c : ℕ) (x y : Mat V) → is_at x.index x.value.column y ≡ true → is_at r c y ≡ is_at r c x
  unfolding is_at
  is_at-same r c x y h = ground arith

  is_at-other :
      (r c : ℕ) (x y : Mat V)
      → is_at x.index x.value.column y ≡ false
      → is_at r c x ≡ true
      → is_at r c y ≡ false
  unfolding is_at
  is_at-other r c x y h k = ground arith

  find_cell-none :
      (r c : ℕ) (x : Mat V) (xs : List (Mat V))
      → find_cell x xs ≡ none
      → is_at r c x ≡ true
      → cells r c xs ≡ []
  unfolding find_cell
  find_cell-none r c x [] h k = refl
  find_cell-none r c x (y ∷ ys) h k = elim (Bool-cases (is_at x.index x.value.column y)) [
    | inl e ↦ absurd (none-ne-some _ (sym (rw (find_cell, e) at h)))
    | inr e ↦ elim (Option-cases (find_cell x ys)) [
      | inl f ↦ rw (is_at-other r c x y e k) (find_cell-none r c x ys f k)
      | inr (found, f) ↦ absurd (none-ne-some _ (sym (rw (find_cell, e, f) at h)))
    ]
  ]

  -- What taking the cell found out of the list does at each place.
  abbrev Takes : ℕ → ℕ → Mat V → List (Mat V) → Mat V × List (Mat V) → Type 0
  Takes r c x xs p =
      (length p.1 + 1 ≡ length xs)
      × (cells r c xs ≡ (if is_at r c x then p.0.value.data_of ∷ cells r c p.1 else cells r c p.1))

  find_cell-some :
      (r c : ℕ) (x : Mat V) (xs : List (Mat V)) (p : Mat V × List (Mat V))
      → find_cell x xs ≡ some p
      → Takes r c x xs p
  unfolding find_cell
  find_cell-some r c x [] p h = absurd (none-ne-some _ h)
  find_cell-some r c x (y ∷ ys) p h = elim (Bool-cases (is_at x.index x.value.column y)) [
    | inl e ↦
        subst (Takes r c x (y ∷ ys)) (some-injective _ _ (rw (find_cell, e) at h))
          (omega arith, rw (is_at-same r c x y e) refl)
    | inr e ↦ elim (Option-cases (find_cell x ys)) [
      | inl f ↦ absurd (none-ne-some _ (rw (find_cell, e, f) at h))
      | inr ((z, zs), f) ↦
          let (size, split) = find_cell-some r c x ys (z, zs) f in
          subst (Takes r c x (y ∷ ys)) (some-injective _ _ (rw (find_cell, e, f) at h)) (
            omega (arith, size),
            elim (Bool-cases (is_at r c x)) [
              | inl k ↦ rw (k, is_at-other r c x y e k) (split ∙ rw k refl)
              | inr k ↦
                  rw k (
                    ap (λ ds. if is_at r c y then y.value.data_of ∷ ds else ds) (split ∙ rw k refl))
            ],
          )
    ]
  ]

module _ {V : Type 0} (n : Number V) where
  abbrev sum_of : Mat V → Mat V → V
  sum_of x y = n.plus x.value.data_of y.value.data_of

  -- With a round for each cell, `add` leaves at each place the sums of the data there in pairs,
  -- without those that are zero.
  pub add_cells-paired :
      (r c fuel : ℕ) (xs : List (Mat V))
      → length xs ≤ fuel
      → cells r c (add_cells n fuel xs) ≡ paired n (cells r c xs)
  unfolding add_cells is_at
  add_cells-paired r c zero [] h = refl
  add_cells-paired r c zero (x ∷ xs) h = absurd (omega arith)
  add_cells-paired r c (suc fuel) [] h = refl
  add_cells-paired r c (suc fuel) (x ∷ xs) h = elim (Option-cases (find_cell x xs)) [
    | inl e ↦
        let ih = add_cells-paired r c fuel xs (omega arith) in
        elim (Bool-cases (is_at r c x)) [
          | inl k ↦
              let gone = find_cell-none r c x xs e k in
              rw (add_cells, e, k)
                (ap (◌∷◌ x.value.data_of) (ih ∙ ap (paired n) gone)
                  ∙ sym (ap (λ ds. paired n (x.value.data_of ∷ ds)) gone))
          | inr k ↦ rw (add_cells, e, k) ih
        ]
    | inr ((y, ys), e) ↦
        let (size, split) = find_cell-some r c x xs (y, ys) e in
        let ih = add_cells-paired r c fuel ys (omega (arith, size)) in
        elim (Bool-cases (is_at r c x)) [
          | inl k ↦
              let here : is_at r c (cell x.index x.value.column (sum_of x y)) ≡ true = k in
              let both : cells r c xs ≡ y.value.data_of ∷ cells r c ys = split ∙ rw k refl in
              elim (Bool-cases (n.is_zero (sum_of x y))) [
                | inl z ↦
                    rw (add_cells, e, k, z)
                      (ih ∙ sym (ap (λ ds. paired n (x.value.data_of ∷ ds)) both ∙ rw z refl))
                | inr z ↦
                    rw (add_cells, e, k, z, here)
                      (ap (◌∷◌ (sum_of x y)) ih
                        ∙ sym (ap (λ ds. paired n (x.value.data_of ∷ ds)) both ∙ rw z refl))
              ]
          | inr k ↦
              let away : is_at r c (cell x.index x.value.column (sum_of x y)) ≡ false = k in
              let others : cells r c xs ≡ cells r c ys = split ∙ rw k refl in
              let rest = ih ∙ ap (paired n) (sym others) in
              elim (Bool-cases (n.is_zero (sum_of x y))) [
                | inl z ↦ rw (add_cells, e, k, z) rest
                | inr z ↦ rw (add_cells, e, k, z, away) rest
              ]
        ]
  ]
