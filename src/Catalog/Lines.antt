-- ===== src/Catalog/Lines.antt =====
-- Lines of data.txt with too many values.
use homeworks.Prelude.{◌<◌, ◌≡◌, ◌⊎◌, inl, inr, refl, List, [], ◌∷◌, length, take, CString, arith}
use homeworks.Catalog.{
  Library, Outcome, value, uncaught, undefined, FieldFormat, Field, split, create_field,
}
use homeworks.Catalog.Entries.{create_fields, Catalog, parse_entry}

Outcome-cases :
    {A : Type 0} (o : Outcome A) → ((x : A) × (o ≡ value x)) ⊎ ((o ≡ uncaught) ⊎ (o ≡ undefined))
Outcome-cases (value x) = inl (x, refl)
Outcome-cases uncaught = inr (inl refl)
Outcome-cases undefined = inr (inr refl)

uncaught-value : {A : Type 0} (x : A) → uncaught ≡ value x → ⊥
uncaught-value x h = cc

undefined-value : {A : Type 0} (x : A) → undefined ≡ value x → ⊥
undefined-value x h = cc

module _ (L : Library) where
  create_fields-undefined :
      (format : List FieldFormat) (vs : List CString) (xs : List (Field L.Double))
      → create_fields L format (take (length format) vs) ≡ value xs
      → length format < length vs
      → create_fields L format vs ≡ undefined
  unfolding create_fields
  create_fields-undefined format [] xs h l = absurd (omega arith)
  create_fields-undefined [] (v ∷ vs) xs h l = refl
  create_fields-undefined (f ∷ format) (v ∷ vs) xs h l = elim (Outcome-cases (create_field L f v)) [
    | inr (inl e) ↦ absurd (uncaught-value xs (rw (create_fields, e) at h))
    | inr (inr e) ↦ absurd (undefined-value xs (rw (create_fields, e) at h))
    | inl (x, e) ↦ elim (Outcome-cases (create_fields L format (take (length format) vs))) [
      | inr (inl g) ↦ absurd (uncaught-value xs (rw (create_fields, e, g) at h))
      | inr (inr g) ↦ absurd (undefined-value xs (rw (create_fields, e, g) at h))
      | inl (ys, g) ↦
          rw (create_fields, e, create_fields-undefined format vs ys g (omega arith)) refl
    ]
  ]

  -- A line whose first values can be read, one for each field of the format, and that has more
  -- values behind them, is undefined behaviour: `parse_entry` reads `format` out of its bounds.
  pub parse_entry-undefined :
      (c : Catalog L) (line : CString) (xs : List (Field L.Double))
      → create_fields L c.format (take (length c.format) (split b'|' line)) ≡ value xs
      → length c.format < length (split b'|' line)
      → parse_entry L c line ≡ undefined
  unfolding parse_entry
  parse_entry-undefined c line xs h l =
      rw (parse_entry, create_fields-undefined c.format (split b'|' line) xs h l) refl
