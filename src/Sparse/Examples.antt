-- ===== src/Sparse/Examples.antt =====
-- The theorems on sparse vectors at concrete ones, with 64-bit words for data.
use homeworks.Prelude.{
  ℕ, ◌+◌, ◌*◌, ◌-◌, ◌%◌, ◌^◌, ◌≡◌, refl, ap, List, [], ◌∷◌, ◌++◌, some, ◌==◌, arith,
}
use native.Mathlib.Nat.{add_comm}
use homeworks.Sparse.{Number, Vec, sort, sort_from, add, plus_vectors, minus_vectors}
use homeworks.Sparse.Merge.{inhabited}
use homeworks.Sparse.Order.{IsSorted}
use homeworks.Sparse.Sum.{values, paired, IsDistinct, plus_vectors-values}

abbrev word : Number ℕ
word = record {
  plus = λ a b. (a + b) % 2 ^ 64;
  times = λ a b. (a * b) % 2 ^ 64;
  negate = λ a. (2 ^ 64 - a) % 2 ^ 64;
  is_zero = λ a. a == 0;
  nought = 0;
}

abbrev left : List (Vec ℕ)
left = record { index = 7; value = 5 } ∷ record { index = 2; value = 1 } ∷ []

abbrev right : List (Vec ℕ)
right = record { index = 2; value = 2 ^ 64 - 1 } ∷ record { index = 3; value = 4 } ∷ []

left-IsDistinct : IsDistinct left
left-IsDistinct i = ground arith

right-IsDistinct : IsDistinct right
right-IsDistinct i = ground arith

word-plus_comm : (a b : ℕ) → word.plus a b ≡ word.plus b a
word-plus_comm a b = ap (λ s. s % 2 ^ 64) (add_comm a b)

plus_vectors-values_example :
    (d : List (Vec ℕ)) × (plus_vectors word left right ≡ inhabited d)
    × IsSorted d
    × ((i : ℕ) → values i d ≡ paired word (values i left ++ values i right))
plus_vectors-values_example =
    plus_vectors-values word left right word-plus_comm left-IsDistinct right-IsDistinct

-- What `operator+` drops is the sum of zero at index 2.
plus_test :
    plus_vectors word left right
    ≡ some (record { index = 3; value = 4 } ∷ record { index = 7; value = 5 } ∷ [])
unfolding plus_vectors sort sort_from add
plus_test = refl

-- `left - right` is (-5, -1) at 7 and 2, with right's data unchanged.
minus_test :
    minus_vectors word left right
    ≡ some (
        record { index = 2; value = 2 ^ 64 - 2 }
        ∷ record { index = 3; value = 4 }
        ∷ record { index = 7; value = 2 ^ 64 - 5 }
        ∷ [])
unfolding minus_vectors sort sort_from add
minus_test = refl
