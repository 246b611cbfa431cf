-- ===== src/Catalog/Typing.antt =====
-- Every field is of the class that the format names.
use homeworks.Prelude.{
  ◌≤◌, ◌≡◌, Bool, true, false, not, ◌&&◌, List, [], ◌∷◌, Option, none, some, if◌then◌else◌,
  if_cases, length, CString, text, streq, arith,
}
use homeworks.Catalog.{
  Library, Outcome, value, uncaught, undefined, FieldFormat, Field, field_str, field_str_arr,
  field_char, field_char_arr, field_int, field_int_arr, field_double, field_double_arr, or_uncaught,
  or_undefined, create_field,
}
use homeworks.Catalog.Entries.{create_fields}

-- P holds of the value, if there is one.
abbrev pub Gives {ℓ} : {A : Type 0} → (A → Type ℓ) → Outcome A → Type ℓ
Gives P (value x) = P x
Gives P uncaught = Unit
Gives P undefined = Unit

Gives-or_uncaught :
    {A B : Type 0} (P : B → Type 0) (f : A → B) (o : Option A)
    → ((x : A) → P (f x))
    → Gives P (or_uncaught f o)
Gives-or_uncaught P f none h = tt
Gives-or_uncaught P f (some x) h = h x

Gives-or_undefined :
    {A B : Type 0} (P : B → Type 0) (f : A → B) (o : Option A)
    → ((x : A) → P (f x))
    → Gives P (or_undefined f o)
Gives-or_undefined P f none h = tt
Gives-or_undefined P f (some x) h = h x

abbrev pub is_type : FieldFormat → CString → Bool → Bool
is_type f type_name is_arr =
    streq f.type_name type_name && (if is_arr then f.is_arr else not f.is_arr)

module _ (L : Library) where
  -- The field is of the class that the format names.
  unfoldable pub has_type : FieldFormat → Field L.Double → Bool
  has_type f (field_str _) = is_type f (text "string") false
  has_type f (field_str_arr _) = is_type f (text "string") true
  has_type f (field_char _) = is_type f (text "char") false
  has_type f (field_char_arr _) = is_type f (text "char") true
  has_type f (field_int _) = is_type f (text "integer") false
  has_type f (field_int_arr _) = is_type f (text "integer") true
  has_type f (field_double _) = is_type f (text "double") false
  has_type f (field_double_arr _) = is_type f (text "double") true

  abbrev pub Typed : FieldFormat → Outcome (Field L.Double) → Type 0
  Typed f = Gives (λ x. has_type f x ≡ true)

  pub create_field-Typed : (f : FieldFormat) (input : CString) → Typed f (create_field L f input)
  unfolding create_field has_type
  create_field-Typed f input =
      if_cases (Typed f) (is_type f (text "string") false) (λ e. e)
        (λ _.
          if_cases (Typed f) (is_type f (text "string") true) (λ e. e)
            (λ _.
              if_cases (Typed f) (is_type f (text "char") false) (λ e. e)
                (λ _.
                  if_cases (Typed f) (is_type f (text "char") true) (λ e. e)
                    (λ _.
                      if_cases (Typed f) (is_type f (text "integer") false)
                        (λ e. Gives-or_uncaught (λ x. has_type f x ≡ true) field_int _ (λ _. e))
                        (λ _.
                          if_cases (Typed f) (is_type f (text "integer") true)
                            (λ e.
                              Gives-or_undefined (λ x. has_type f x ≡ true) field_int_arr _
                                (λ _. e))
                            (λ _.
                              if_cases (Typed f) (is_type f (text "double") false)
                                (λ e.
                                  Gives-or_uncaught (λ x. has_type f x ≡ true) field_double _
                                    (λ _. e))
                                (λ _.
                                  if_cases (Typed f) (is_type f (text "double") true)
                                    (λ e.
                                      Gives-or_undefined (λ x. has_type f x ≡ true) field_double_arr
                                        _ (λ _. e))
                                    (λ _. tt))))))))

  -- The fields are of the types of the first fields of the format, in order.
  abbrev pub HasTypes : List FieldFormat → List (Field L.Double) → Type 0
  HasTypes format [] = Unit
  HasTypes [] (x ∷ xs) = ⊥
  HasTypes (f ∷ format) (x ∷ xs) = (has_type f x ≡ true) × HasTypes format xs

  abbrev pub IsEntry : List FieldFormat → List (Field L.Double) → Type 0
  IsEntry format xs = HasTypes format xs × (length xs ≡ length format)

  pub create_fields-HasTypes :
      (format : List FieldFormat) (vs : List CString)
      → Gives (λ xs. HasTypes format xs) (create_fields L format vs)
  unfolding create_fields
  create_fields-HasTypes format [] = tt
  create_fields-HasTypes [] (v ∷ vs) = tt
  create_fields-HasTypes (f ∷ format) (v ∷ vs) =
      both (create_field L f v) (create_fields L format vs) (create_field-Typed f v)
        (create_fields-HasTypes format vs)
    where
      both :
          (o : Outcome (Field L.Double)) (p : Outcome (List (Field L.Double)))
          → Typed f o
          → Gives (λ xs. HasTypes format xs) p
          → Gives
              (λ xs. HasTypes (f ∷ format) xs)
              (elim o [
                | undefined ↦ undefined
                | uncaught ↦ uncaught
                | value x ↦ elim p [
                  | undefined ↦ undefined
                  | uncaught ↦ uncaught
                  | value xs ↦ value (x ∷ xs)
                ]
              ])
      both undefined p h k = tt
      both uncaught p h k = tt
      both (value x) undefined h k = tt
      both (value x) uncaught h k = tt
      both (value x) (value xs) h k = (h, k)

  pub HasTypes-length :
      (format : List FieldFormat) (xs : List (Field L.Double))
      → HasTypes format xs
      → length xs ≤ length format
  HasTypes-length format [] h = omega arith
  HasTypes-length [] (x ∷ xs) h = elim h [ ]
  HasTypes-length (f ∷ format) (x ∷ xs) h = omega (arith, HasTypes-length format xs h.1)
