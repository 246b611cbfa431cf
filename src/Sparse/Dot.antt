-- ===== src/Sparse/Dot.antt =====
-- The product of two vectors of SparseVector.cpp.
use homeworks.Prelude.{
  ◌≡◌, refl, ap, ◌∙◌, true, false, List, [], ◌∷◌, ◌==◌, arith, Bool-cases, inl, inr,
}
use homeworks.Sparse.{Number, Vec, dot_row, dot_from, dot}
use homeworks.Sparse.Sum.{values}

-- The products of v with the data, added up in order.
abbrev pub add_products : {V : Type 0} → Number V → V → V → List V → V
add_products n acc v [] = acc
add_products n acc v (w ∷ ws) = add_products n (n.plus acc (n.times v w)) v ws

-- Each element of a against the data of b at its index.
abbrev pub sum_products : {V : Type 0} → Number V → V → List (Vec V) → List (Vec V) → V
sum_products n acc [] b = acc
sum_products n acc (x ∷ a) b = sum_products n (add_products n acc x.value (values x.index b)) a b

module _ {V : Type 0} (n : Number V) where
  dot_row-eq-add_products :
      (x : Vec V) (b : List (Vec V)) (acc : V)
      → dot_row n x b acc ≡ add_products n acc x.value (values x.index b)
  unfolding dot_row
  dot_row-eq-add_products x [] acc = refl
  dot_row-eq-add_products x (y ∷ b) acc = elim (Bool-cases (x.index == y.index)) [
    | inl alike ↦
        let turned : (y.index == x.index) ≡ true = ground arith in
        rw (alike, turned) (dot_row-eq-add_products x b (n.plus acc (n.times x.value y.value)))
    | inr differ ↦
        let turned : (y.index == x.index) ≡ false = ground arith in
        rw (differ, turned) (dot_row-eq-add_products x b acc)
  ]

  dot_from-eq-sum_products :
      (a b : List (Vec V)) (acc : V) → dot_from n a b acc ≡ sum_products n acc a b
  unfolding dot_from
  dot_from-eq-sum_products [] b acc = refl
  dot_from-eq-sum_products (x ∷ a) b acc =
      dot_from-eq-sum_products a b (dot_row n x b acc)
      ∙ ap (λ v. sum_products n v a b) (dot_row-eq-add_products x b acc)

  -- The two loops of `dot` add up, from the constant 0 and in the first vector's order, the product
  -- of each of its data with every datum that the second vector has at the same index.
  pub dot-eq-sum_products : (a b : List (Vec V)) → dot n a b ≡ sum_products n n.nought a b
  unfolding dot
  dot-eq-sum_products a b = dot_from-eq-sum_products a b n.nought
