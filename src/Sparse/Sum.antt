-- ===== src/Sparse/Sum.antt =====
-- What `operator+` of SparseVector.cpp gives at each index.
use homeworks.Prelude.{
  IsPermutation, ℕ, suc, ◌≤◌, ◌<◌, ◌≡◌, refl, sym, ap, ◌∙◌, true, false, List, [], ◌∷◌, ◌++◌, ◌==◌,
  if◌then◌else◌, if_cases, length, Bool-cases, inl, inr, arith, length-append,
}
use homeworks.Sparse.{Number, Vec, sort, sort_from, plus_vectors}
use homeworks.Sparse.Merge.{merge, inhabited, add-eq-merge}
use homeworks.Sparse.Order.{IsSorted, IsAbove, sort_from-IsPermutation, sort_from-IsSorted}

module _ {V : Type 0} where
  -- The data at an index, in order.
  abbrev pub values : ℕ → List (Vec V) → List V
  values i [] = []
  values i (x ∷ xs) = if x.index == i then x.value ∷ values i xs else values i xs

  length-zero : (vs : List V) → length vs ≤ 0 → vs ≡ []
  length-zero [] h = refl
  length-zero (v ∷ vs) h = absurd (omega arith)

  -- No index comes twice.
  abbrev pub IsDistinct : List (Vec V) → Type 0
  IsDistinct xs = (i : ℕ) → length (values i xs) ≤ 1

  values-append : (i : ℕ) (xs ys : List (Vec V)) → values i (xs ++ ys) ≡ values i xs ++ values i ys
  values-append i [] ys = refl
  values-append i (x ∷ xs) ys = elim (Bool-cases (x.index == i)) [
    | inl here ↦ rw here (ap (◌∷◌ x.value) (values-append i xs ys))
    | inr other ↦ rw other (values-append i xs ys)
  ]

  values-IsAbove : (i m : ℕ) {xs : List (Vec V)} → i < m → IsAbove m xs → values i xs ≡ []
  values-IsAbove i m h IsAbove.nothing = refl
  values-IsAbove i m h (IsAbove.above {x} {xs} le r) =
      let other : (x.index == i) ≡ false = ground arith in rw other (values-IsAbove i m h r)

  length-values-IsPermutation :
      (i : ℕ) {xs ys : List (Vec V)}
      → IsPermutation xs ys
      → length (values i xs) ≡ length (values i ys)
  length-values-IsPermutation i IsPermutation.same = refl
  length-values-IsPermutation i (IsPermutation.cons {x} p) = elim (Bool-cases (x.index == i)) [
    | inl here ↦ rw here (ap suc (length-values-IsPermutation i p))
    | inr other ↦ rw other (length-values-IsPermutation i p)
  ]
  length-values-IsPermutation i (IsPermutation.swap {x} {y} {xs}) = ground arith
  length-values-IsPermutation i (IsPermutation.trans p q) =
      length-values-IsPermutation i p ∙ length-values-IsPermutation i q

  -- What comes once stays what it is.
  values-IsPermutation :
      (i : ℕ) {xs ys : List (Vec V)}
      → IsPermutation xs ys
      → length (values i xs) ≤ 1
      → values i xs ≡ values i ys
  values-IsPermutation i IsPermutation.same h = refl
  values-IsPermutation i (IsPermutation.cons {x} p) h = elim (Bool-cases (x.index == i)) [
    | inl here ↦ rw here (ap (◌∷◌ x.value) (values-IsPermutation i p (ground arith)))
    | inr other ↦ rw other (values-IsPermutation i p (ground arith))
  ]
  values-IsPermutation i (IsPermutation.swap {x} {y} {xs}) h = elim (Bool-cases (x.index == i)) [
    | inl here ↦ elim (Bool-cases (y.index == i)) [
      | inl here' ↦ absurd (ground arith)
      | inr other ↦ rw (here, other) refl
    ]
    | inr other ↦ rw other refl
  ]
  values-IsPermutation i (IsPermutation.trans p q) h =
      values-IsPermutation i p h
      ∙ values-IsPermutation i q (omega (arith, length-values-IsPermutation i p))

-- Neighbours are summed, and a sum of zero is dropped.
abbrev pub paired : {V : Type 0} → Number V → List V → List V
paired n [] = []
paired n (v ∷ []) = v ∷ []
paired n (v ∷ w ∷ vs) =
    let rest = paired n vs in if n.is_zero (n.plus v w) then rest else n.plus v w ∷ rest

module _ {V : Type 0} (n : Number V) where
  values-merge :
      (i : ℕ) (d : List (Vec V)) → IsSorted d → values i (merge n d) ≡ paired n (values i d)
  unfolding merge
  values-merge i [] s = refl
  values-merge i (x ∷ []) s = if_cases (λ r. r ≡ paired n r) (x.index == i) (λ _. refl) (λ _. refl)
  values-merge i (x ∷ y ∷ d) (IsSorted.first (IsAbove.above le a) (IsSorted.first b s)) =
      let ih = values-merge i d s in
      elim (Bool-cases (x.index == y.index)) [
        | inl alike ↦ elim (Bool-cases (y.index == i)) [
          | inl here ↦
              let here' : (x.index == i) ≡ true = ground arith in
              elim (Bool-cases (n.is_zero (n.plus x.value y.value))) [
                | inl none_left ↦ rw (alike, here, here', none_left) ih
                | inr some_left ↦
                    rw (alike, here, here', some_left, here') (ap (◌∷◌ (n.plus x.value y.value)) ih)
              ]
          | inr other ↦
              let other' : (x.index == i) ≡ false = ground arith in
              elim (Bool-cases (n.is_zero (n.plus x.value y.value))) [
                | inl none_left ↦ rw (alike, none_left, other, other') ih
                | inr some_left ↦ rw (alike, some_left, other, other') ih
              ]
        ]
        | inr differ ↦
            let ih_tail = values-merge i (y ∷ d) (IsSorted.first b s) in
            elim (Bool-cases (x.index == i)) [
              | inl here ↦
                  let gone : values i (y ∷ d) ≡ [] =
                    values-IsAbove i y.index (ground arith) (IsAbove.above (omega arith) b) in
                  rw (differ, here)
                    (ap (◌∷◌ x.value) (ih_tail ∙ ap (paired n) gone)
                      ∙ sym (ap (λ r. paired n (x.value ∷ r)) gone))
              | inr other ↦ rw (differ, other) ih_tail
            ]
      ]

  -- A reordering changes nothing where at most two data meet.
  paired-IsPermutation :
      ((v w : V) → n.plus v w ≡ n.plus w v)
      → (i : ℕ) {xs ys : List (Vec V)} → IsPermutation xs ys
      → length (values i xs) ≤ 2
      → paired n (values i xs) ≡ paired n (values i ys)
  paired-IsPermutation comm i IsPermutation.same h = refl
  paired-IsPermutation comm i (IsPermutation.cons {x} p) h = elim (Bool-cases (x.index == i)) [
    | inl here ↦
        rw here (ap (λ r. paired n (x.value ∷ r)) (values-IsPermutation i p (ground arith)))
    | inr other ↦ rw other (paired-IsPermutation comm i p (ground arith))
  ]
  paired-IsPermutation comm i (IsPermutation.swap {x} {y} {xs}) h =
      elim (Bool-cases (x.index == i)) [
        | inl here ↦ elim (Bool-cases (y.index == i)) [
          | inl here' ↦
              let gone : values i xs ≡ [] = length-zero (values i xs) (ground arith) in
              rw (here, here', gone, comm x.value y.value) refl
          | inr other ↦ rw (here, other) refl
        ]
        | inr other ↦ rw other refl
      ]
  paired-IsPermutation comm i (IsPermutation.trans p q) h =
      paired-IsPermutation comm i p h
      ∙ paired-IsPermutation comm i q (omega (arith, length-values-IsPermutation i p))

  merge-IsAbove : (m : ℕ) (d : List (Vec V)) → IsAbove m d → IsAbove m (merge n d)
  unfolding merge
  merge-IsAbove m [] h = h
  merge-IsAbove m (x ∷ []) h = h
  merge-IsAbove m (x ∷ y ∷ d) (IsAbove.above le (IsAbove.above le' a)) =
      if_cases (IsAbove m) (x.index == y.index)
        (λ _.
          if_cases (IsAbove m) (n.is_zero (n.plus x.value y.value)) (λ _. merge-IsAbove m d a)
            (λ _. IsAbove.above le (merge-IsAbove m d a)))
        (λ _. IsAbove.above le (merge-IsAbove m (y ∷ d) (IsAbove.above le' a)))

  merge-IsSorted : (d : List (Vec V)) → IsSorted d → IsSorted (merge n d)
  unfolding merge
  merge-IsSorted [] h = h
  merge-IsSorted (x ∷ []) h = h
  merge-IsSorted (x ∷ y ∷ d) (IsSorted.first (IsAbove.above le a) (IsSorted.first b s)) =
      if_cases IsSorted (x.index == y.index)
        (λ _.
          if_cases IsSorted (n.is_zero (n.plus x.value y.value)) (λ _. merge-IsSorted d s)
            (λ _. IsSorted.first (merge-IsAbove x.index d a) (merge-IsSorted d s)))
        (λ _.
          IsSorted.first (merge-IsAbove x.index (y ∷ d) (IsAbove.above le a))
            (merge-IsSorted (y ∷ d) (IsSorted.first b s)))

  -- `operator+` is `merge` of the sorted concatenation.
  plus_vectors-eq-merge :
      (a b : List (Vec V))
      → plus_vectors n a b ≡ inhabited (merge n (sort_from (length (a ++ b)) (a ++ b)))
  unfolding plus_vectors sort sort_from merge
  plus_vectors-eq-merge [] [] = refl
  plus_vectors-eq-merge [] (y ∷ b) = add-eq-merge n (sort_from (length (y ∷ b)) (y ∷ b))
  plus_vectors-eq-merge (x ∷ a) b = add-eq-merge n (sort_from (length (x ∷ a ++ b)) (x ∷ a ++ b))

  -- For vectors in which no index comes twice and a commutative addition, the sum has ascending
  -- indices, and at each index the datum of the one operand that has one, or the sum of both data
  -- unless that is zero. With no element left the behaviour is undefined.
  pub plus_vectors-values :
      (a b : List (Vec V))
      → ((v w : V) → n.plus v w ≡ n.plus w v)
      → IsDistinct a
      → IsDistinct b
      → (d : List (Vec V)) × (plus_vectors n a b ≡ inhabited d)
        × IsSorted d
        × ((i : ℕ) → values i d ≡ paired n (values i a ++ values i b))
  plus_vectors-values a b comm ha hb =
      let sorted = sort_from (length (a ++ b)) (a ++ b) in
      let IsS = sort_from-IsSorted (length (a ++ b)) (a ++ b) (omega arith) in
      (
        merge n sorted,
        plus_vectors-eq-merge a b,
        merge-IsSorted sorted IsS,
        λ i.
            values-merge i sorted IsS
            ∙ sym (
                rw (sym (values-append i a b)) (
                  paired-IsPermutation comm i (sort_from-IsPermutation (length (a ++ b)) (a ++ b)) (
                    rw (values-append i a b)
                      (omega (arith, length-append (values i a) (values i b), ha i, hb i))))),
      )
