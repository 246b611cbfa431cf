-- ===== src/Catalog/Splitting.antt =====
-- What cutting a line at a byte and putting the pieces together again gives.
use homeworks.Prelude.{
  true, refl, sym, ap, ◌∙◌, ◌≡◌, ℕ, List, [], ◌∷◌, ◌==◌, if◌then◌else◌, if_cases, Bool-cases, inl,
  inr, CString, ==→≡, text, streq,
}
use homeworks.Catalog.{
  Library, value, FieldFormat, Field, field_str, field_str_arr, split, join, prepend, create_field,
  get_data,
}

-- The string without one byte d at its end.
unfoldable pub trimmed : ℕ → CString → CString
trimmed d [] = []
trimmed d (c ∷ []) = if c == d then [] else c ∷ []
trimmed d (c ∷ e ∷ s) = c ∷ trimmed d (e ∷ s)

split-cons :
    (d c : ℕ) (s : CString) → (t : CString) × (ts : List CString) × (split d (c ∷ s) ≡ t ∷ ts)
unfolding split
split-cons d c [] =
    if_cases (λ (x : List CString). (t : CString) × (ts : List CString) × (x ≡ t ∷ ts)) (c == d)
      (λ _. ([], [], refl)) (λ _. (c ∷ [], [], refl))
split-cons d c (e ∷ s) =
    let (t, ts, h) = split-cons d e s in
    if_cases (λ (x : List CString). (t : CString) × (ts : List CString) × (x ≡ t ∷ ts)) (c == d)
      (λ _. ([], split d (e ∷ s), refl)) (λ _. (c ∷ t, ts, ap (prepend c) h))

join-prepend :
    (d c : ℕ) (t : CString) (ts : List CString) → join d ((c ∷ t) ∷ ts) ≡ c ∷ join d (t ∷ ts)
unfolding join
join-prepend d c t [] = refl
join-prepend d c t (u ∷ ts) = refl

join-split : (d : ℕ) (s : CString) → join d (split d s) ≡ trimmed d s
unfolding split join trimmed
join-split d [] = refl
join-split d (c ∷ []) =
    if_cases (λ (x : List CString). join d x ≡ trimmed d (c ∷ [])) (c == d) (λ e. rw e refl)
      (λ e. rw e refl)
join-split d (c ∷ e ∷ s) =
    let rest = join-split d (e ∷ s) in
    let (t, ts, h) = split-cons d e s in
    if_cases (λ (x : List CString). join d x ≡ c ∷ trimmed d (e ∷ s)) (c == d)
      (λ same.
        ap (λ x. join d ([] ∷ x)) h
        ∙ ap (λ k. k ∷ join d (t ∷ ts)) (sym (==→≡ c d same))
        ∙ ap (◌∷◌ c) (sym (ap (join d) h) ∙ rest))
      (λ _.
        ap (λ x. join d (prepend c x)) h
        ∙ join-prepend d c t ts
        ∙ ap (◌∷◌ c) (sym (ap (join d) h) ∙ rest))

-- A field of strings is read for every input, and printed as it was read, without one colon at the
-- end; a field that is one string is printed as it was read.
pub get_data-create_field :
    (L : Library) (format : FieldFormat) (input : CString)
    → streq format.type_name (text "string") ≡ true
    → (x : Field L.Double) × (create_field L format input ≡ value x)
      × (get_data L x ≡ (if format.is_arr then trimmed b':' input else input))
unfolding create_field get_data
get_data-create_field L format input h = elim (Bool-cases format.is_arr) [
  | inl e ↦ (field_str_arr (split b':' input), rw (h, e) refl, rw e (join-split b':' input))
  | inr e ↦ (field_str input, rw (h, e) refl, rw e refl)
]
