-- ===== src/Sparse.antt =====
-- Object Oriented Programming Spring/PA2/PA2/SparseVector.cpp: sparse vectors, as lists of indices
-- with their data. An index, an `int`, is the number by which it exceeds the least `int`.
pub mod Merge
pub mod Order
pub mod Sum
pub mod Minus
pub mod Dot
pub mod Matrix
pub mod Examples
use homeworks.Prelude.{
  ℕ, zero, suc, ◌+◌, Bool, true, false, List, [], ◌∷◌, ◌++◌, Option, none, some, ltb, ◌==◌,
  if◌then◌else◌, length,
}

-- The operations on `double` that the code uses: `+`, `*`, `* -1`, `== 0.0`, and the constant 0.
pub record Number (V : Type 0) : Type 0 where
  pub plus : V → V → V
  pub times : V → V → V
  pub negate : V → V
  pub is_zero : V → Bool
  pub nought : V

pub record Vec (V : Type 0) : Type 0 where
  pub index : ℕ
  pub value : V

module _ {V : Type 0} where
  -- The inner loop of `sort` at one i: what stands at i in the end, and behind it.
  unfoldable pub sort_pass : Vec V → List (Vec V) → Vec V × List (Vec V)
  sort_pass x [] = (x, [])
  sort_pass x (y ∷ rest) =
      let swapped = sort_pass y rest in
      let kept = sort_pass x rest in
      if ltb y.index x.index then (swapped.0, x ∷ swapped.1) else (kept.0, y ∷ kept.1)

  -- The outer loop, one round for each element.
  unfoldable pub sort_from : ℕ → List (Vec V) → List (Vec V)
  unfolding sort_pass
  sort_from zero xs = xs
  sort_from (suc n) [] = []
  sort_from (suc n) (x ∷ rest) = (sort_pass x rest).0 ∷ sort_from n (sort_pass x rest).1

  -- On no elements `size () - 1` is the greatest size, and the index runs over: `none` is undefined
  -- behaviour.
  unfoldable pub sort : List (Vec V) → Option (List (Vec V))
  unfolding sort_from
  sort [] = none
  sort (x ∷ rest) = some (sort_from (length (x ∷ rest)) (x ∷ rest))

  -- `alldata.erase (alldata.begin () + i)`
  unfoldable pub erase : ℕ → List (Vec V) → List (Vec V)
  erase i [] = []
  erase zero (x ∷ xs) = xs
  erase (suc i) (x ∷ xs) = x ∷ erase i xs

  unfoldable pub get : List (Vec V) → ℕ → Option (Vec V)
  get [] i = none
  get (x ∷ xs) zero = some x
  get (x ∷ xs) (suc i) = get xs i

  unfoldable pub set_value : ℕ → V → List (Vec V) → List (Vec V)
  set_value i v [] = []
  set_value zero v (x ∷ xs) = record x { value = v } ∷ xs
  set_value (suc i) v (x ∷ xs) = x ∷ set_value i v xs

-- What the body of the loop of `add` makes of the elements x and y at i and i + 1: the next index
-- and the vector.
unfoldable pub add_body :
    {V : Type 0} → Number V → ℕ → Vec V → Vec V → List (Vec V) → ℕ × List (Vec V)
unfolding erase set_value
add_body n i x y d =
    let sum = n.plus x.value y.value in
    let merged = erase (i + 1) (set_value i sum d) in
    if x.index == y.index
    then (if n.is_zero sum then (i, erase i merged) else (i + 1, merged))
    else (i + 1, d)

-- The loop of `add` with fuel. `i < alldata.size () - 1` holds on no elements, where the read that
-- follows is undefined.
unfoldable pub add_loop : {V : Type 0} → Number V → ℕ → ℕ → List (Vec V) → Option (List (Vec V))
unfolding add_body get
add_loop n zero i d = none
add_loop n (suc fuel) i [] = none
add_loop n (suc fuel) i (e ∷ es) = elim (get (e ∷ es) i) [
  | none ↦ some (e ∷ es)
  | some x ↦ elim (get (e ∷ es) (i + 1)) [
    | none ↦ some (e ∷ es)
    | some y ↦ add_loop n fuel (add_body n i x y (e ∷ es)).0 (add_body n i x y (e ∷ es)).1
  ]
]

unfoldable pub add : {V : Type 0} → Number V → List (Vec V) → Option (List (Vec V))
unfolding add_loop
add n d = add_loop n (length d + 1) 0 d

-- `operator+`
unfoldable pub plus_vectors :
    {V : Type 0} → Number V → List (Vec V) → List (Vec V) → Option (List (Vec V))
unfolding sort add
plus_vectors n a b = elim (sort (a ++ b)) [ none ↦ none | some d ↦ add n d ]

-- `alldata [i].data *= -1`
unfoldable pub negate_at : {V : Type 0} → Number V → ℕ → List (Vec V) → List (Vec V)
negate_at n i [] = []
negate_at n zero (x ∷ xs) = record x { value = n.negate x.value } ∷ xs
negate_at n (suc i) (x ∷ xs) = x ∷ negate_at n i xs

-- The second loop of `operator-`, at i: `out` is the vector built so far.
unfoldable pub append_negated :
    {V : Type 0} → Number V → ℕ → List (Vec V) → List (Vec V) → List (Vec V)
unfolding negate_at
append_negated n i out [] = out
append_negated n i out (y ∷ ys) = append_negated n (i + 1) (negate_at n i (out ++ y ∷ [])) ys

-- `operator-` of two vectors
unfoldable pub minus_vectors :
    {V : Type 0} → Number V → List (Vec V) → List (Vec V) → Option (List (Vec V))
unfolding append_negated sort add
minus_vectors n a b = elim (sort (append_negated n 0 a b)) [ none ↦ none | some d ↦ add n d ]

-- `operator-` of one vector: element i is pushed and negated.
unfoldable pub negated : {V : Type 0} → Number V → ℕ → List (Vec V) → List (Vec V) → List (Vec V)
unfolding negate_at
negated n i out [] = out
negated n i out (x ∷ xs) = negated n (i + 1) (negate_at n i (out ++ x ∷ [])) xs

unfoldable pub negate_vector : {V : Type 0} → Number V → List (Vec V) → List (Vec V)
unfolding negated
negate_vector n a = negated n 0 [] a

-- The loops of `dot`.
unfoldable pub dot_row : {V : Type 0} → Number V → Vec V → List (Vec V) → V → V
dot_row n x [] acc = acc
dot_row n x (y ∷ ys) acc =
    dot_row n x ys (if x.index == y.index then n.plus acc (n.times x.value y.value) else acc)

unfoldable pub dot_from : {V : Type 0} → Number V → List (Vec V) → List (Vec V) → V → V
unfolding dot_row
dot_from n [] b acc = acc
dot_from n (x ∷ xs) b acc = dot_from n xs b (dot_row n x b acc)

unfoldable pub dot : {V : Type 0} → Number V → List (Vec V) → List (Vec V) → V
unfolding dot_from
dot n a b = dot_from n a b n.nought
