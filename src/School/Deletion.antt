-- ===== src/School/Deletion.antt =====
-- SchoolManagementSystem.cpp: the loop behind the two deletions.
use homeworks.Prelude.{
  ℕ, zero, suc, ◌+◌, ◌≤◌, ◌<◌, ◌≡◌, refl, sym, ap, subst, ◌∙◌, Bool, true, false, List, [], ◌∷◌,
  none, some, length, leb, ==_self, if◌then◌else◌, get_elem?, get_elem?-some, get_elem?-lt,
  remove_nth, IsUnique, any-get_none, Bool-cases, inl, inr, arith,
}
use mathlib.Core.Option.{none-ne-some, some-injective}
use homeworks.School.{System}
use homeworks.School.Menu.{deletion_loop}

-- Of distinct elements, an earlier one is not related to a later one.
pub IsUnique-get {ℓ} :
    {A : Type ℓ} (r : A → A → Bool) (xs : List A) (k i : ℕ) (y x : A)
    → IsUnique r xs
    → k < i
    → get_elem? xs k ≡ some y
    → get_elem? xs i ≡ some x
    → r y x ≡ false
IsUnique-get r [] k i y x u l e f = absurd (none-ne-some _ e)
IsUnique-get r (z ∷ xs) k zero y x u l e f = absurd (omega arith)
IsUnique-get r (z ∷ xs) zero (suc i) y x u l e f =
    ap (λ w. r w x) (sym (some-injective _ _ e)) ∙ any-get_none (r z) xs i u.0 f
IsUnique-get r (z ∷ xs) (suc k) (suc i) y x u l e f =
    IsUnique-get r xs k i y x u.1 (omega arith) e f

-- The element behind the next one, after one is taken out.
get_elem?-remove_nth {ℓ} :
    {A : Type ℓ} (i : ℕ) (xs : List A)
    → get_elem? (remove_nth i xs) (suc i) ≡ get_elem? xs (suc (suc i))
get_elem?-remove_nth zero [] = refl
get_elem?-remove_nth (suc i) [] = refl
get_elem?-remove_nth zero (x ∷ xs) = refl
get_elem?-remove_nth (suc i) (x ∷ xs) = get_elem?-remove_nth i xs

get_elem?-end {ℓ} : {A : Type ℓ} (xs : List A) (i : ℕ) → length xs ≤ i → get_elem? xs i ≡ none
get_elem?-end [] i h = refl
get_elem?-end (x ∷ xs) zero h = absurd (omega arith)
get_elem?-end (x ∷ xs) (suc i) h = get_elem?-end xs i (omega arith)

module _ {A : Type 0} (items : System → List A) (same : A → Bool) (erase : ℕ → A → System → System)
    (erased : (j : ℕ) (o : A) (s : System) → items (erase j o s) ≡ remove_nth j (items s)) where
  -- After the deletion the loop ends if its condition fails, and else reads a deleted object.
  deletion_loop-gone :
      (i n : ℕ) (o : A) (s : System)
      → deletion_loop items same erase i (suc n) (i + 1) true (erase i o s)
        ≡ (if leb (length (items s)) (i + 2) then some (erase i o s) else none)
  unfolding deletion_loop
  deletion_loop-gone i n o s =
      let next : get_elem? (items (erase i o s)) (i + 1) ≡ get_elem? (items s) (i + 2) =
        let one : suc i ≡ i + 1 = omega arith in
        let two : suc (suc i) ≡ i + 2 = omega arith in
        ap (λ xs. get_elem? xs (i + 1)) (erased i o s)
        ∙ ap (get_elem? (remove_nth i (items s))) (sym one)
        ∙ get_elem?-remove_nth i (items s)
        ∙ ap (get_elem? (items s)) two in
      elim (Bool-cases (leb (length (items s)) (i + 2))) [
        | inl ends ↦
            let off = get_elem?-end (items s) (i + 2) (ground arith) in
            rw (deletion_loop, next, off, ends) refl
        | inr more ↦
            let (x, there) = get_elem?-some (items s) (i + 2) (ground arith) in
            rw (deletion_loop, next, there, more) refl
      ]

  deletion_loop-here :
      (i n : ℕ) (o : A) (s : System)
      → get_elem? (items s) i ≡ some o
      → same o ≡ true
      → deletion_loop items same erase i (suc (suc n)) i false s
        ≡ (if leb (length (items s)) (i + 2) then some (erase i o s) else none)
  unfolding deletion_loop
  deletion_loop-here i n o s e h = rw (deletion_loop, e, h, ==_self i) (deletion_loop-gone i n o s)

  -- The loop on a first element with the key: it is deleted where it is one of the last two.
  pub deletion_loop-lem :
      (d n i j : ℕ) (o : A) (s : System)
      → j + d ≡ i
      → d + 2 ≤ n
      → get_elem? (items s) i ≡ some o
      → same o ≡ true
      → ((k : ℕ) (y : A) → k < i → get_elem? (items s) k ≡ some y → same y ≡ false)
      → deletion_loop items same erase i n j false s
        ≡ (if leb (length (items s)) (i + 2) then some (erase i o s) else none)
  unfolding deletion_loop
  deletion_loop-lem d zero i j o s at fuel e h first = absurd (omega arith)
  deletion_loop-lem d (suc zero) i j o s at fuel e h first = absurd (omega arith)
  deletion_loop-lem zero (suc (suc n)) i j o s at fuel e h first =
      let here : j ≡ i = omega arith in
      subst
        (λ k.
          deletion_loop items same erase i (suc (suc n)) k false s
          ≡ (if leb (length (items s)) (i + 2) then some (erase i o s) else none))
        (sym here) (deletion_loop-here i n o s e h)
  deletion_loop-lem (suc d) (suc (suc n)) i j o s at fuel e h first =
      let (y, there) = get_elem?-some (items s) j (omega (arith, get_elem?-lt (items s) i e)) in
      let other = first j y (omega arith) there in
      rw (deletion_loop, there, other)
        (deletion_loop-lem d (suc n) i (j + 1) o s (omega arith) (omega arith) e h first)
