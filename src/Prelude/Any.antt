-- ===== src/Prelude/Any.antt =====
-- Lists all of whose elements, or some, or no two of which, pass a test.
use Prim.Native.Nat.{ℕ, zero, suc}
use mathlib.Core.Path.{◌≡◌, refl, sym, ap, subst, ◌∙◌}
use mathlib.Core.Bool.{Bool, true, false, false≢true}
use mathlib.Core.List.{List, [], ◌∷◌, ◌++◌}
use mathlib.Core.Option.{some, none-ne-some, some-injective}
use mathlib.Core.Logic.{inl, inr}
use homeworks.Prelude.Tests.{if◌then◌else◌, if_cases, Bool-cases}
use homeworks.Prelude.Lists.{any, get_elem?, set, remove_first, remove_nth}

abbrev pub All {ℓ κ} : {A : Type ℓ} → (A → Type κ) → List A → Type κ
All P [] = Unit
All P (x ∷ xs) = P x × All P xs

-- No element is related to a later one.
abbrev pub IsUnique {ℓ} : {A : Type ℓ} → (A → A → Bool) → List A → Type 0
IsUnique r [] = Unit {0}
IsUnique r (x ∷ xs) = (any (r x) xs ≡ false) × IsUnique r xs

module _ {ℓ κ} {A : Type ℓ} (P : A → Type κ) where
  pub All-append_one : (xs : List A) {y : A} → All P xs → P y → All P (xs ++ y ∷ [])
  All-append_one [] h p = (p, tt)
  All-append_one (x ∷ xs) h p = (h.0, All-append_one xs h.1 p)

  pub All-set : (xs : List A) (i : ℕ) {y : A} → All P xs → P y → All P (set xs i y)
  All-set [] i h p = tt
  All-set (x ∷ xs) zero h p = (p, h.1)
  All-set (x ∷ xs) (suc i) h p = (h.0, All-set xs i h.1 p)

  pub All-remove_first : (p : A → Bool) (xs : List A) → All P xs → All P (remove_first p xs)
  All-remove_first p [] h = tt
  All-remove_first p (x ∷ xs) h =
      if_cases (All P) (p x) (λ _. h.1) (λ _. (h.0, All-remove_first p xs h.1))

  pub All-remove_nth : (i : ℕ) (xs : List A) → All P xs → All P (remove_nth i xs)
  All-remove_nth i [] h = tt
  All-remove_nth zero (x ∷ xs) h = h.1
  All-remove_nth (suc i) (x ∷ xs) h = (h.0, All-remove_nth i xs h.1)

  pub All-get : (xs : List A) (i : ℕ) {y : A} → All P xs → get_elem? xs i ≡ some y → P y
  All-get [] i h e = absurd (none-ne-some _ e)
  All-get (x ∷ xs) zero h e = subst P (some-injective _ _ e) h.0
  All-get (x ∷ xs) (suc i) h e = All-get xs i h.1 e

pub All-map {ℓ κ μ} :
    {A : Type ℓ} {P : A → Type κ} {Q : A → Type μ}
    → ((x : A) → P x → Q x)
    → (xs : List A) → All P xs
    → All Q xs
All-map f [] h = tt
All-map f (x ∷ xs) h = (f x h.0, All-map f xs h.1)

module _ {ℓ} {A : Type ℓ} where
  pub any-append_left : (p : A → Bool) (xs ys : List A) → any p xs ≡ true → any p (xs ++ ys) ≡ true
  any-append_left p [] ys h = absurd (false≢true h)
  any-append_left p (x ∷ xs) ys h = elim (Bool-cases (p x)) [
    | inl e ↦ rw e refl
    | inr e ↦ rw e (any-append_left p xs ys (rw e at h))
  ]

  pub any-append_last :
      (p : A → Bool) (xs : List A) (y : A) → p y ≡ true → any p (xs ++ y ∷ []) ≡ true
  any-append_last p [] y h = rw h refl
  any-append_last p (x ∷ xs) y h =
      if_cases (λ b. b ≡ true) (p x) (λ _. refl) (λ _. any-append_last p xs y h)

  pub any-cons_none :
      (q : A → Bool) (x : A) (xs : List A)
      → any q (x ∷ xs) ≡ false
      → (q x ≡ false) × (any q xs ≡ false)
  any-cons_none q x xs h = elim (Bool-cases (q x)) [
    | inl e ↦ absurd (false≢true (sym h ∙ rw e refl))
    | inr e ↦ (e, rw e at h)
  ]

  pub any-append_none :
      (p : A → Bool) (xs : List A) (y : A)
      → any p xs ≡ false
      → p y ≡ false
      → any p (xs ++ y ∷ []) ≡ false
  any-append_none p [] y h k = rw k refl
  any-append_none p (x ∷ xs) y h k =
      let (e, rest) = any-cons_none p x xs h in rw e (any-append_none p xs y rest k)

  pub any-cong : (p q : A → Bool) → ((x : A) → p x ≡ q x) → (xs : List A) → any p xs ≡ any q xs
  any-cong p q f [] = refl
  any-cong p q f (x ∷ xs) = rw (f x) (ap (λ b. if q x then true else b) (any-cong p q f xs))

  pub any_mono :
      (p q : A → Bool)
      → ((x : A) → p x ≡ true → q x ≡ true)
      → (xs : List A) → any p xs ≡ true
      → any q xs ≡ true
  any_mono p q f [] h = h
  any_mono p q f (x ∷ xs) h = elim (Bool-cases (p x)) [
    | inl e ↦ rw (f x e) refl
    | inr e ↦ if_cases (λ b. b ≡ true) (q x) (λ _. refl) (λ _. any_mono p q f xs (rw e at h))
  ]

  pub any-remove_first :
      (p q : A → Bool)
      → ((x : A) → p x ≡ true → q x ≡ false)
      → (xs : List A) → any q xs ≡ true
      → any q (remove_first p xs) ≡ true
  any-remove_first p q f [] h = h
  any-remove_first p q f (x ∷ xs) h = elim (Bool-cases (p x)) [
    | inl e ↦ rw e (rw (f x e) at h)
    | inr e ↦ rw e (elim (Bool-cases (q x)) [
      | inl k ↦ rw k refl
      | inr k ↦ rw k (any-remove_first p q f xs (rw k at h))
    ])
  ]

  pub any-remove_first_none :
      (p q : A → Bool) (xs : List A) → any q xs ≡ false → any q (remove_first p xs) ≡ false
  any-remove_first_none p q [] h = h
  any-remove_first_none p q (x ∷ xs) h =
      let (k, rest) = any-cons_none q x xs h in
      if_cases (λ ys. any q ys ≡ false) (p x) (λ _. rest)
        (λ _. rw k (any-remove_first_none p q xs rest))

  pub any-remove_nth_none :
      (i : ℕ) (q : A → Bool) (xs : List A) → any q xs ≡ false → any q (remove_nth i xs) ≡ false
  any-remove_nth_none i q [] h = h
  any-remove_nth_none zero q (x ∷ xs) h = (any-cons_none q x xs h).1
  any-remove_nth_none (suc i) q (x ∷ xs) h =
      let (k, rest) = any-cons_none q x xs h in rw k (any-remove_nth_none i q xs rest)

  pub any-set_none :
      (q : A → Bool) (xs : List A) (i : ℕ) (y : A)
      → q y ≡ false
      → any q xs ≡ false
      → any q (set xs i y) ≡ false
  any-set_none q [] i y k h = h
  any-set_none q (x ∷ xs) zero y k h = rw k (any-cons_none q x xs h).1
  any-set_none q (x ∷ xs) (suc i) y k h =
      let (e, rest) = any-cons_none q x xs h in rw e (any-set_none q xs i y k rest)

  pub any-get_none :
      (q : A → Bool) (xs : List A) (i : ℕ) {y : A}
      → any q xs ≡ false
      → get_elem? xs i ≡ some y
      → q y ≡ false
  any-get_none q [] i h e = absurd (none-ne-some _ e)
  any-get_none q (x ∷ xs) zero h e = ap q (sym (some-injective _ _ e)) ∙ (any-cons_none q x xs h).0
  any-get_none q (x ∷ xs) (suc i) h e = any-get_none q xs i (any-cons_none q x xs h).1 e

  -- Distinct elements stay distinct where one goes, one comes or one is changed.
  pub IsUnique-remove_first :
      (r : A → A → Bool) (p : A → Bool) (xs : List A)
      → IsUnique r xs
      → IsUnique r (remove_first p xs)
  IsUnique-remove_first r p [] h = tt
  IsUnique-remove_first r p (x ∷ xs) h =
      if_cases (IsUnique r) (p x) (λ _. h.1)
        (λ _. (any-remove_first_none p (r x) xs h.0, IsUnique-remove_first r p xs h.1))

  pub IsUnique-remove_nth :
      (r : A → A → Bool) (i : ℕ) (xs : List A) → IsUnique r xs → IsUnique r (remove_nth i xs)
  IsUnique-remove_nth r i [] h = tt
  IsUnique-remove_nth r zero (x ∷ xs) h = h.1
  IsUnique-remove_nth r (suc i) (x ∷ xs) h =
      (any-remove_nth_none i (r x) xs h.0, IsUnique-remove_nth r i xs h.1)

  pub IsUnique-append_one :
      (r : A → A → Bool) (xs : List A) (y : A)
      → IsUnique r xs
      → any (λ x. r x y) xs ≡ false
      → IsUnique r (xs ++ y ∷ [])
  IsUnique-append_one r [] y h k = (refl, tt)
  IsUnique-append_one r (x ∷ xs) y h k =
      let (e, rest) = any-cons_none (λ z. r z y) x xs k in
      (any-append_none (r x) xs y h.0 e, IsUnique-append_one r xs y h.1 rest)

  pub IsUnique-set :
      (r : A → A → Bool) (xs : List A) (i : ℕ) {x : A} (y : A)
      → get_elem? xs i ≡ some x
      → ((z : A) → (r z y ≡ r z x) × (r y z ≡ r x z))
      → IsUnique r xs
      → IsUnique r (set xs i y)
  IsUnique-set r [] i y e k h = tt
  IsUnique-set r (z ∷ xs) zero {x} y e k h =
      let same : z ≡ x = some-injective _ _ e in
      (any-cong (r y) (r z) (λ w. (k w).1 ∙ ap (λ u. r u w) (sym same)) xs ∙ h.0, h.1)
  IsUnique-set r (z ∷ xs) (suc i) y e k h = (
    any-set_none (r z) xs i y ((k z).0 ∙ any-get_none (r z) xs i h.0 e) h.0,
    IsUnique-set r xs i y e k h.1,
  )
