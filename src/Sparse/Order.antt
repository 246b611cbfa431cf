-- ===== src/Sparse/Order.antt =====
-- The order that `sort` in SparseVector.cpp makes.
use homeworks.Prelude.{
  IsPermutation, same, cons, swap, trans, ◌⊎◌, inl, inr, ℕ, zero, suc, ◌≤◌, ◌≡◌, refl, ap, List, [],
  ◌∷◌, none, some, ltb, ltb→lt, if_cases, length, arith,
}
use mathlib.Core.List.{Perm}
use mathlib.Core.List.Perm
use homeworks.Sparse.{Vec, sort_pass, sort_from, sort}

module _ {V : Type 0} where
  -- No index is below m.
  pub data IsAbove (m : ℕ) : List (Vec V) → Type 0 where
    nothing : IsAbove m []
    above : {x : Vec V} {xs : List (Vec V)} → m ≤ x.index → IsAbove m xs → IsAbove m (x ∷ xs)

  -- The indices do not descend.
  pub data IsSorted : List (Vec V) → Type 0 where
    nothing : IsSorted []
    first : {x : Vec V} {xs : List (Vec V)} → IsAbove x.index xs → IsSorted xs → IsSorted (x ∷ xs)

  IsAbove-le : {m k : ℕ} {xs : List (Vec V)} → m ≤ k → IsAbove k xs → IsAbove m xs
  IsAbove-le h nothing = nothing
  IsAbove-le h (above g r) = above (omega arith) (IsAbove-le h r)

  IsAbove-IsPermutation :
      {m : ℕ} {xs ys : List (Vec V)} → IsPermutation xs ys → IsAbove m xs → IsAbove m ys
  IsAbove-IsPermutation same g = g
  IsAbove-IsPermutation {m} (cons d) (above h r) = above h (IsAbove-IsPermutation d r)
  IsAbove-IsPermutation {m} swap (above h (above g r)) = above g (above h r)
  IsAbove-IsPermutation (trans c d) g = IsAbove-IsPermutation d (IsAbove-IsPermutation c g)

  sort_pass-IsPermutation :
      (x : Vec V) (rest : List (Vec V))
      → IsPermutation (x ∷ rest) ((sort_pass x rest).0 ∷ (sort_pass x rest).1)
  unfolding sort_pass
  sort_pass-IsPermutation x [] = same
  sort_pass-IsPermutation x (y ∷ rest) =
      if_cases (λ (r : Vec V × List (Vec V)). IsPermutation (x ∷ y ∷ rest) (r.0 ∷ r.1))
        (ltb y.index x.index) (λ _. trans (cons (sort_pass-IsPermutation y rest)) swap)
        (λ _. trans swap (trans (cons (sort_pass-IsPermutation x rest)) swap))

  sort_pass-length : (x : Vec V) (rest : List (Vec V)) → length (sort_pass x rest).1 ≡ length rest
  unfolding sort_pass
  sort_pass-length x [] = refl
  sort_pass-length x (y ∷ rest) =
      if_cases (λ (r : Vec V × List (Vec V)). length r.1 ≡ suc (length rest)) (ltb y.index x.index)
        (λ _. ap suc (sort_pass-length y rest)) (λ _. ap suc (sort_pass-length x rest))

  sort_pass-le : (x : Vec V) (rest : List (Vec V)) → (sort_pass x rest).0.index ≤ x.index
  unfolding sort_pass
  sort_pass-le x [] = omega arith
  sort_pass-le x (y ∷ rest) =
      if_cases (λ (r : Vec V × List (Vec V)). r.0.index ≤ x.index) (ltb y.index x.index)
        (λ e. omega (arith, ltb→lt y.index x.index e, sort_pass-le y rest))
        (λ _. sort_pass-le x rest)

  -- What a round leaves behind its element is not below it.
  sort_pass-IsAbove :
      (x : Vec V) (rest : List (Vec V)) → IsAbove (sort_pass x rest).0.index (sort_pass x rest).1
  unfolding sort_pass
  sort_pass-IsAbove x [] = nothing
  sort_pass-IsAbove x (y ∷ rest) =
      if_cases (λ (r : Vec V × List (Vec V)). IsAbove r.0.index r.1) (ltb y.index x.index)
        (λ e.
          above (omega (arith, ltb→lt y.index x.index e, sort_pass-le y rest))
            (sort_pass-IsAbove y rest))
        (λ e. above (ground (arith, sort_pass-le x rest)) (sort_pass-IsAbove x rest))

  pub sort_from-IsPermutation : (n : ℕ) (xs : List (Vec V)) → IsPermutation xs (sort_from n xs)
  unfolding sort_from
  sort_from-IsPermutation zero xs = same
  sort_from-IsPermutation (suc n) [] = same
  sort_from-IsPermutation (suc n) (x ∷ rest) =
      trans (sort_pass-IsPermutation x rest) (cons (sort_from-IsPermutation n (sort_pass x rest).1))

  pub sort_from-IsSorted : (n : ℕ) (xs : List (Vec V)) → length xs ≤ n → IsSorted (sort_from n xs)
  unfolding sort_from
  sort_from-IsSorted zero [] h = nothing
  sort_from-IsSorted zero (x ∷ xs) h = absurd (omega arith)
  sort_from-IsSorted (suc n) [] h = nothing
  sort_from-IsSorted (suc n) (x ∷ rest) h =
      first
        (IsAbove-IsPermutation (sort_from-IsPermutation n (sort_pass x rest).1)
          (sort_pass-IsAbove x rest))
        (sort_from-IsSorted n (sort_pass x rest).1 (ground (arith, sort_pass-length x rest)))

  -- The permutation in the library's sense.
  Perm-of : {xs ys : List (Vec V)} → IsPermutation xs ys → Perm xs ys
  Perm-of same = Perm.rfl
  Perm-of (cons {x} p) = Perm.cons x (Perm-of p)
  Perm-of (swap {x} {y} {xs}) = Perm.swap y x xs
  Perm-of (trans p q) = Perm.trans (Perm-of p) (Perm-of q)

  -- On no elements `sort` is undefined. On others it gives the same elements by ascending index.
  pub sort-IsSorted :
      (d : List (Vec V))
      → ((d ≡ []) × (sort d ≡ none))
        ⊎ ((s : List (Vec V)) × (sort d ≡ some s) × IsSorted s × Perm d s)
  unfolding sort
  sort-IsSorted [] = inl (refl, refl)
  sort-IsSorted (x ∷ rest) = inr (
    sort_from (length (x ∷ rest)) (x ∷ rest),
    refl,
    sort_from-IsSorted (length (x ∷ rest)) (x ∷ rest) (omega arith),
    Perm-of (sort_from-IsPermutation (length (x ∷ rest)) (x ∷ rest)),
  )
