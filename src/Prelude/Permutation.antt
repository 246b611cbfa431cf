-- ===== src/Prelude/Permutation.antt =====
-- Lists with the same elements in another order.
use mathlib.Core.List.{List, ◌∷◌}
use homeworks.Prelude.Any.{All}

pub data IsPermutation {ℓ} {A : Type ℓ} : List A → List A → Type ℓ where
  same : {xs : List A} → IsPermutation xs xs
  cons : {x : A} {xs ys : List A} → IsPermutation xs ys → IsPermutation (x ∷ xs) (x ∷ ys)
  swap : {x y : A} {xs : List A} → IsPermutation (x ∷ y ∷ xs) (y ∷ x ∷ xs)
  trans : {xs ys zs : List A} → IsPermutation xs ys → IsPermutation ys zs → IsPermutation xs zs

pub All-IsPermutation {ℓ κ} :
    {A : Type ℓ} (P : A → Type κ) {xs ys : List A} → IsPermutation xs ys → All P xs → All P ys
All-IsPermutation P same h = h
All-IsPermutation P (cons p) h = (h.0, All-IsPermutation P p h.1)
All-IsPermutation P swap h = (h.1.0, (h.0, h.1.1))
All-IsPermutation P (trans p q) h = All-IsPermutation P q (All-IsPermutation P p h)
