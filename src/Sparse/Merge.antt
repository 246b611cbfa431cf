-- ===== src/Sparse/Merge.antt =====
-- The loop of `add` in SparseVector.cpp against a recursion on the list.
use homeworks.Prelude.{
  ℕ, zero, suc, ◌+◌, ◌<◌, ◌≡◌, refl, ap, ◌∙◌, List, [], ◌∷◌, ◌++◌, Option, none, some, Option-cases,
  ◌==◌, if◌then◌else◌, length, Bool-cases, inl, inr, arith, length-append,
}
use mathlib.Core.List.{append_assoc}
use mathlib.Core.Option.{none-ne-some}
use homeworks.Sparse.{Number, Vec, get, erase, set_value, add_body, add_loop, add}

-- Neighbours of one index are summed, and a sum of zero is dropped.
unfoldable pub merge : {V : Type 0} → Number V → List (Vec V) → List (Vec V)
merge n [] = []
merge n (x ∷ []) = x ∷ []
merge n (x ∷ y ∷ rest) =
    let sum = n.plus x.value y.value in
    let behind = merge n rest in
    let kept = merge n (y ∷ rest) in
    if x.index == y.index
    then (if n.is_zero sum then behind else record x { value = sum } ∷ behind)
    else x ∷ kept

-- The vector, when it has an element.
abbrev pub inhabited : {V : Type 0} → List (Vec V) → Option (List (Vec V))
inhabited [] = none
inhabited (x ∷ xs) = some (x ∷ xs)

module _ {V : Type 0} where
  get-append :
      (pre rest : List (Vec V)) {i : ℕ} (k : ℕ)
      → i ≡ length pre + k
      → get (pre ++ rest) i ≡ get rest k
  unfolding get
  get-append [] rest k e = ap (get rest) (omega (arith, e))
  get-append (p ∷ pre) rest {i = zero} k e = absurd (omega (arith, e))
  get-append (p ∷ pre) rest {i = suc i} k e = get-append pre rest k (omega (arith, e))

  erase-append :
      (pre rest : List (Vec V)) {i : ℕ} (k : ℕ)
      → i ≡ length pre + k
      → erase i (pre ++ rest) ≡ pre ++ erase k rest
  unfolding erase
  erase-append [] rest k e = ap (λ j. erase j rest) (omega (arith, e))
  erase-append (p ∷ pre) rest {i = zero} k e = absurd (omega (arith, e))
  erase-append (p ∷ pre) rest {i = suc i} k e =
      ap (◌∷◌ p) (erase-append pre rest k (omega (arith, e)))

  set_value-append :
      (pre rest : List (Vec V)) (v : V)
      → set_value (length pre) v (pre ++ rest) ≡ pre ++ set_value 0 v rest
  unfolding set_value
  set_value-append [] rest v = refl
  set_value-append (p ∷ pre) rest v = ap (◌∷◌ p) (set_value-append pre rest v)

  inhabited-append :
      (pre : List (Vec V)) (x : Vec V) (xs : List (Vec V))
      → inhabited (pre ++ x ∷ xs) ≡ some (pre ++ x ∷ xs)
  inhabited-append [] x xs = refl
  inhabited-append (p ∷ pre) x xs = refl

module _ {V : Type 0} (n : Number V) where
  -- The loop ends where no element follows.
  add_loop-end :
      (fuel i : ℕ) (d : List (Vec V))
      → get d (i + 1) ≡ none
      → add_loop n (suc fuel) i d ≡ inhabited d
  unfolding add_loop get
  add_loop-end fuel i [] e = refl
  add_loop-end fuel i (x ∷ d) e = elim (Option-cases (get (x ∷ d) i)) [
    | inl gone ↦ rw (add_loop, gone) refl
    | inr (y, there) ↦ rw (add_loop, there, e) refl
  ]

  add_loop-step :
      (fuel i : ℕ) (d : List (Vec V)) {x y : Vec V}
      → get d i ≡ some x
      → get d (i + 1) ≡ some y
      → add_loop n (suc fuel) i d ≡ add_loop n fuel (add_body n i x y d).0 (add_body n i x y d).1
  unfolding add_loop get
  add_loop-step fuel i [] {x = x} e f = absurd (none-ne-some x e)
  add_loop-step fuel i (z ∷ d) e f = rw (add_loop, e, f) refl

  -- Two elements of one index become their sum.
  summed :
      (pre rest : List (Vec V)) (x y : Vec V) (v : V)
      → erase (length pre + 1) (set_value (length pre) v (pre ++ x ∷ y ∷ rest))
        ≡ pre ++ record x { value = v } ∷ rest
  unfolding set_value erase
  summed pre rest x y v =
      rw (set_value-append pre (x ∷ y ∷ rest) v)
        (erase-append pre (record x { value = v } ∷ y ∷ rest) 1 refl)

  -- The loop behind a finished part.
  add_loop-append :
      (fuel i : ℕ) (pre rest : List (Vec V))
      → length rest < fuel
      → i ≡ length pre
      → add_loop n fuel i (pre ++ rest) ≡ inhabited (pre ++ merge n rest)
  unfolding merge get add_body
  add_loop-append zero i pre rest h e = absurd (omega arith)
  add_loop-append (suc fuel) i pre [] h e =
      add_loop-end fuel i (pre ++ []) (get-append pre [] 1 (omega (arith, e)))
  add_loop-append (suc fuel) i pre (x ∷ []) h e =
      add_loop-end fuel i (pre ++ x ∷ []) (get-append pre (x ∷ []) 1 (omega (arith, e)))
  add_loop-append (suc fuel) i pre (x ∷ y ∷ rest) h e =
      add_loop-step fuel i (pre ++ x ∷ y ∷ rest)
        (get-append pre (x ∷ y ∷ rest) 0 (omega (arith, e)))
        (get-append pre (x ∷ y ∷ rest) 1 (omega (arith, e)))
      ∙ elim (Bool-cases (x.index == y.index)) [
        | inr differ ↦
            rw (e, differ)
              (rw
                (
                  append_assoc pre (x ∷ []) (y ∷ rest),
                  append_assoc pre (x ∷ []) (merge n (y ∷ rest)),
                )
                at
                (add_loop-append fuel (length pre + 1) (pre ++ x ∷ []) (y ∷ rest) (omega (arith, h))
                  (omega (arith, e, length-append pre (x ∷ [])))))
        | inl alike ↦ elim (Bool-cases (n.is_zero (n.plus x.value y.value))) [
          | inl none_left ↦
              rw (e, alike, none_left)
                (rw
                  (
                    summed pre rest x y (n.plus x.value y.value),
                    erase-append pre (record x { value = n.plus x.value y.value } ∷ rest)
                        {i = length pre} 0 (omega arith),
                  )
                  (add_loop-append fuel (length pre) pre rest (omega (arith, h)) refl))
          | inr some_left ↦
              rw (e, alike, some_left)
                (rw (summed pre rest x y (n.plus x.value y.value)) (
                  rw
                    (
                      append_assoc pre (record x { value = n.plus x.value y.value } ∷ []) rest,
                      append_assoc pre (record x { value = n.plus x.value y.value } ∷ [])
                          (merge n rest),
                    )
                    at
                    (add_loop-append fuel (length pre + 1)
                      (pre ++ record x { value = n.plus x.value y.value } ∷ []) rest
                      (omega (arith, h))
                      (omega (
                        arith,
                        length-append pre (record x { value = n.plus x.value y.value } ∷ []),
                      )))))
        ]
      ]

  -- The loop of `add` merges, unless nothing is left: then it reads past the vector's end.
  pub add-eq-merge : (d : List (Vec V)) → add n d ≡ inhabited (merge n d)
  unfolding add
  add-eq-merge d = add_loop-append (length d + 1) 0 [] d (omega arith) refl
