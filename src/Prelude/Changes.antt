-- ===== src/Prelude/Changes.antt =====
-- Lists with an element put in place of another, and what is found in a list.
use Prim.Native.Nat.{ℕ, zero, suc, ◌+◌, ◌<◌}
use native.Mathlib.Omega.{arith}
use mathlib.Core.Path.{◌≡◌, refl, sym, ap, ◌∙◌}
use mathlib.Core.Bool.{Bool, true, false, false≢true}
use mathlib.Core.List.{List, [], ◌∷◌}
use mathlib.Core.Option.{some, none-ne-some, some-injective}
use mathlib.Core.Logic.{inl, inr}
use homeworks.Prelude.Tests.{if◌then◌else◌, if_cases, Bool-cases, Option-cases}
use homeworks.Prelude.Lists.{any, position, length, get_elem?, set, remove_first, update_first}
use homeworks.Prelude.Any.{All, IsUnique, any-cong, any-cons_none}

module _ {ℓ} {A : Type ℓ} (q : A → Bool) where
  pub any-replace :
      (x y : A) (xs : List A)
      → (q x ≡ true → q y ≡ true)
      → any q (x ∷ xs) ≡ true
      → any q (y ∷ xs) ≡ true
  any-replace x y xs f h = elim (Bool-cases (q x)) [
    | inl e ↦ rw (f e) refl
    | inr e ↦ if_cases (λ b. b ≡ true) (q y) (λ _. refl) (λ _. rw e at h)
  ]

  pub any-cons :
      (x : A) (xs ys : List A)
      → (any q xs ≡ true → any q ys ≡ true)
      → any q (x ∷ xs) ≡ true
      → any q (x ∷ ys) ≡ true
  any-cons x xs ys f h = elim (Bool-cases (q x)) [
    | inl e ↦ rw e refl
    | inr e ↦ rw e (f (rw e at h))
  ]

  pub any-set :
      (xs : List A) (k : ℕ) {x y : A}
      → get_elem? xs k ≡ some x
      → (q x ≡ true → q y ≡ true)
      → any q xs ≡ true
      → any q (set xs k y) ≡ true
  any-set [] k e f h = h
  any-set (z ∷ xs) zero {x} {y} e f h =
      any-replace z y xs (λ g. f (ap q (sym (some-injective z x e)) ∙ g)) h
  any-set (z ∷ xs) (suc k) {x} {y} e f h = any-cons z xs (set xs k y) (any-set xs k e f) h

  pub any-set_new :
      (xs : List A) (k : ℕ) {x : A} (y : A)
      → get_elem? xs k ≡ some x
      → q y ≡ true
      → any q (set xs k y) ≡ true
  any-set_new [] k y e h = absurd (none-ne-some _ e)
  any-set_new (z ∷ xs) zero y e h = rw h refl
  any-set_new (z ∷ xs) (suc k) y e h =
      if_cases (λ b. b ≡ true) (q z) (λ _. refl) (λ _. any-set_new xs k y e h)

  pub any-update_first :
      (p : A → Bool) (f : A → A)
      → ((x : A) → q x ≡ true → q (f x) ≡ true)
      → (xs : List A) → any q xs ≡ true
      → any q (update_first p f xs) ≡ true
  any-update_first p f g [] h = h
  any-update_first p f g (x ∷ xs) h =
      if_cases (λ ys. any q ys ≡ true) (p x) (λ _. any-replace x (f x) xs (g x) h)
        (λ _. any-cons x xs (update_first p f xs) (any-update_first p f g xs) h)

-- Changing an element in a way that no relation sees keeps the others distinct.
module _ {ℓ} {A : Type ℓ} (r : A → A → Bool) (p : A → Bool) (f : A → A)
    (same : (x y : A) → (r x (f y) ≡ r x y) × (r (f x) y ≡ r x y)) where
  any-update_first_eq : (x : A) (xs : List A) → any (r x) (update_first p f xs) ≡ any (r x) xs
  any-update_first_eq x [] = refl
  any-update_first_eq x (y ∷ xs) =
      if_cases (λ ys. any (r x) ys ≡ any (r x) (y ∷ xs)) (p y)
        (λ _. ap (λ b. if b then true else any (r x) xs) (same x y).0)
        (λ _. ap (λ b. if r x y then true else b) (any-update_first_eq x xs))

  pub IsUnique-update_first : (xs : List A) → IsUnique r xs → IsUnique r (update_first p f xs)
  IsUnique-update_first [] h = tt
  IsUnique-update_first (x ∷ xs) h =
      if_cases (IsUnique r) (p x)
        (λ _. (any-cong (r (f x)) (r x) (λ y. (same x y).1) xs ∙ h.0, h.1))
        (λ _. (any-update_first_eq x xs ∙ h.0, IsUnique-update_first xs h.1))

pub All-update_first {ℓ κ} :
    {A : Type ℓ} (P : A → Type κ) (p : A → Bool) (f : A → A)
    → ((x : A) → P x → P (f x))
    → (xs : List A) → All P xs
    → All P (update_first p f xs)
All-update_first P p f g [] h = tt
All-update_first P p f g (x ∷ xs) h =
    if_cases (All P) (p x) (λ _. (g x h.0, h.1)) (λ _. (h.0, All-update_first P p f g xs h.1))

pub All-any_none {ℓ} :
    {A : Type ℓ} (q : A → Bool) (xs : List A) → any q xs ≡ false → All (λ x. q x ≡ false) xs
All-any_none q [] h = tt
All-any_none q (x ∷ xs) h = let (k, rest) = any-cons_none q x xs h in (k, All-any_none q xs rest)

pub All-zip {ℓ κ μ ν} :
    {A : Type ℓ} {P : A → Type κ} {Q : A → Type μ} {R : A → Type ν}
    → ((x : A) → P x → Q x → R x)
    → (xs : List A) → All P xs
    → All Q xs
    → All R xs
All-zip f [] h k = tt
All-zip f (x ∷ xs) h k = (f x h.0 k.0, All-zip f xs h.1 k.1)

-- An element that passes the test and has what all have.
pub any-All {ℓ κ} :
    {A : Type ℓ} (P : A → Type κ) (q : A → Bool) (xs : List A)
    → All P xs
    → any q xs ≡ true
    → (x : A) × P x × (q x ≡ true)
any-All P q [] h k = absurd (false≢true k)
any-All P q (x ∷ xs) h k = elim (Bool-cases (q x)) [
  | inl e ↦ (x, h.0, e)
  | inr e ↦ any-All P q xs h.1 (rw e at k)
]

module _ {ℓ} {A : Type ℓ} (p : A → Bool) where
  pub any-get :
      (xs : List A) (i : ℕ) {x : A} → get_elem? xs i ≡ some x → p x ≡ true → any p xs ≡ true
  any-get [] i e h = absurd (none-ne-some _ e)
  any-get (z ∷ xs) zero {x} e h =
      let here : p z ≡ true = ap p (some-injective z x e) ∙ h in rw here refl
  any-get (z ∷ xs) (suc i) e h = if_cases (λ b. b ≡ true) (p z) (λ _. refl) (λ _. any-get xs i e h)

  pub length-remove_first :
      (xs : List A) → any p xs ≡ true → length (remove_first p xs) + 1 ≡ length xs
  length-remove_first [] h = absurd (false≢true h)
  length-remove_first (x ∷ xs) h = elim (Bool-cases (p x)) [
    | inl e ↦ rw e (omega arith)
    | inr e ↦ rw e (omega (arith, length-remove_first xs (rw e at h)))
  ]

pub position-lt {ℓ} :
    {A : Type ℓ} (p : A → Bool) (xs : List A) (i : ℕ) → position p xs ≡ some i → i < length xs
position-lt p [] i h = absurd (none-ne-some _ h)
position-lt p (x ∷ xs) i h = elim (Bool-cases (p x)) [
  | inl e ↦ let zeroth : 0 ≡ i = some-injective _ _ (rw e at h) in omega (arith, zeroth)
  | inr e ↦ elim (Option-cases (position p xs)) [
    | inl f ↦ absurd (none-ne-some _ (rw (e, f) at h))
    | inr (j, f) ↦
        let next : suc j ≡ i = some-injective _ _ (rw (e, f) at h) in
        omega (arith, next, position-lt p xs j f)
  ]
]
