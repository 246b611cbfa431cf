-- ===== src/Sparse/Minus.antt =====
-- What the two `operator-` of SparseVector.cpp negate.
use homeworks.Prelude.{
  ℕ, zero, suc, ◌+◌, ◌-◌, ◌≡◌, refl, sym, ap, ◌∙◌, List, [], ◌∷◌, ◌++◌, map, none, some, length,
  arith, length-append,
}
use mathlib.Core.List.{append-nil, append_assoc}
use homeworks.Sparse.{
  Number, Vec, sort, add, plus_vectors, minus_vectors, negate_at, append_negated, negated,
  negate_vector,
}

-- An element with its datum negated.
abbrev pub opposite : {V : Type 0} → Number V → Vec V → Vec V
opposite n x = record x { value = n.negate x.value }

-- The first k elements negated.
abbrev pub negate_first : {V : Type 0} → Number V → ℕ → List (Vec V) → List (Vec V)
negate_first n zero xs = xs
negate_first n (suc k) [] = []
negate_first n (suc k) (x ∷ xs) = opposite n x ∷ negate_first n k xs

module _ {V : Type 0} (n : Number V) where
  negate_at-append :
      (pre : List (Vec V)) (x : Vec V) (xs : List (Vec V))
      → negate_at n (length pre) (pre ++ x ∷ xs) ≡ pre ++ opposite n x ∷ xs
  unfolding negate_at
  negate_at-append [] x xs = refl
  negate_at-append (p ∷ pre) x xs = ap (◌∷◌ p) (negate_at-append pre x xs)

  -- The loop behind a finished part.
  append_negated-append :
      (i : ℕ) (out pre rest ys : List (Vec V))
      → i ≡ length pre
      → out ≡ pre ++ rest
      → append_negated n i out ys ≡ pre ++ negate_first n (length ys) (rest ++ ys)
  unfolding append_negated
  append_negated-append i out pre rest [] e f = rw (append-nil rest) f
  append_negated-append i out pre [] (y ∷ ys) e f =
      append_negated-append (i + 1) (negate_at n i (out ++ y ∷ [])) (pre ++ opposite n y ∷ []) [] ys
        (omega (arith, e, length-append pre (opposite n y ∷ [])))
        (rw (f, e, append-nil pre, append-nil (pre ++ opposite n y ∷ []))
          (negate_at-append pre y []))
      ∙ append_assoc pre (opposite n y ∷ []) (negate_first n (length ys) ys)
  append_negated-append i out pre (x ∷ rest) (y ∷ ys) e f =
      append_negated-append (i + 1) (negate_at n i (out ++ y ∷ [])) (pre ++ opposite n x ∷ [])
        (rest ++ y ∷ []) ys (omega (arith, e, length-append pre (opposite n x ∷ [])))
        (rw
          (
            f,
            e,
            append_assoc pre (x ∷ rest) (y ∷ []),
            append_assoc pre (opposite n x ∷ []) (rest ++ y ∷ []),
          )
          (negate_at-append pre x (rest ++ y ∷ [])))
      ∙ append_assoc pre (opposite n x ∷ []) (negate_first n (length ys) ((rest ++ y ∷ []) ++ ys))
      ∙ ap (λ r. pre ++ opposite n x ∷ negate_first n (length ys) r) (append_assoc rest (y ∷ []) ys)

  negate_first-append :
      (k : ℕ) (a b : List (Vec V))
      → negate_first n k (a ++ b) ≡ negate_first n k a ++ negate_first n (k - length a) b
  negate_first-append zero a b =
      let none_left : zero ≡ zero - length a = omega arith in
      ap (λ j. a ++ negate_first n j b) none_left
  negate_first-append (suc k) [] b =
      let all_left : suc k ≡ suc k - 0 = omega arith in ap (λ j. negate_first n j b) all_left
  negate_first-append (suc k) (x ∷ a) b =
      let left : k - length a ≡ suc k - suc (length a) = omega arith in
      ap (◌∷◌ (opposite n x))
        (negate_first-append k a b ∙ ap (λ j. negate_first n k a ++ negate_first n j b) left)

  -- The binary `operator-` adds what `operator+` adds once as many elements of the first operand as
  -- the second has are negated, and of the second only those that lie further on than the first is
  -- long.
  pub minus_vectors-eq-plus_vectors :
      (a b : List (Vec V))
      → minus_vectors n a b
        ≡ plus_vectors n (negate_first n (length b) a) (negate_first n (length b - length a) b)
  unfolding minus_vectors plus_vectors
  minus_vectors-eq-plus_vectors a b =
      ap (λ d. elim (sort d) [ none ↦ none | some s ↦ add n s ])
        (append_negated-append 0 a [] a b refl refl ∙ negate_first-append (length b) a b)

  negated-append :
      (i : ℕ) (out xs : List (Vec V))
      → i ≡ length out
      → negated n i out xs ≡ out ++ map (opposite n) xs
  unfolding negated
  negated-append i out [] e = sym (append-nil out)
  negated-append i out (x ∷ xs) e =
      negated-append (i + 1) (negate_at n i (out ++ x ∷ [])) xs
        (rw (e, negate_at-append out x []) (omega (arith, length-append out (opposite n x ∷ []))))
      ∙ rw (e, negate_at-append out x [])
          (append_assoc out (opposite n x ∷ []) (map (opposite n) xs))

  -- The unary `operator-` negates every element and keeps the order and the indices.
  pub negate_vector-eq-map : (a : List (Vec V)) → negate_vector n a ≡ map (opposite n) a
  unfolding negate_vector
  negate_vector-eq-map a = negated-append 0 [] a refl
