-- ===== src/Catalog/InForm.antt =====
-- The catalog after the lines of data.txt: every entry has the fields of the format.
use homeworks.Prelude.{
  ℕ, ◌+◌, ◌*◌, ◌<◌, ◌≡◌, inl, inr, refl, sym, ◌∙◌, subst, false, List, [], ◌∷◌, ◌++◌, ltb,
  Bool-cases, length, length-append, any, CString, text, streq, arith, All, All-append_one,
  IsUnique,
}
use homeworks.Prelude.{IsUnique-append_one}
use homeworks.Catalog.{Library, Outcome, value, FieldFormat, Field, split}
use homeworks.Catalog.Entries.{
  entry_str, create_fields, Catalog, write, parse_entry, add_entry, read_entries,
}
use homeworks.Catalog.Typing.{Gives, HasTypes, IsEntry, create_fields-HasTypes, HasTypes-length}

module _ (L : Library) where
  -- Every entry has the fields of the format, and no two lines with the same key were taken.
  pub record InForm (c : Catalog L) : Type 0 where
    pub entries_fit : All (IsEntry L c.format) c.entries
    pub keys_unique : IsUnique (λ k l. streq l k) c.parsed_entries

  -- A line with no more values than the format has fields, each of which can be read.
  abbrev pub IsReadable : List FieldFormat → CString → Type 0
  IsReadable format line =
      (xs : List (Field L.Double)) × (create_fields L format (split b'|' line) ≡ value xs)

  -- Twice the number of entries and the lines of output.txt.
  abbrev pub account : Catalog L → ℕ
  account c = 2 * length c.entries + length c.out_file

  -- What one line of data.txt leads to.
  abbrev Adds : Catalog L → Outcome (List (Field L.Double) × Catalog L) → Type 0
  Adds c out =
      (e : List (Field L.Double) × Catalog L) × (out ≡ value e)
      × InForm (add_entry L e.1 e.0)
      × ((add_entry L e.1 e.0).format ≡ c.format)
      × (account (add_entry L e.1 e.0) ≡ account c + 2)

  accepted-Adds :
      (c : Catalog L) (line key : CString) (xs : List (Field L.Double))
      → InForm c
      → 0 < length c.format
      → HasTypes L c.format xs
      → any (streq key) c.parsed_entries ≡ false
      → ltb (length xs) (length c.format) ≡ false
      → parse_entry L c line
        ≡ value (xs, record c { parsed_entries = c.parsed_entries ++ key ∷ [] })
      → Adds c (parse_entry L c line)
  unfolding add_entry
  accepted-Adds c line key [] v some_field types fresh full h = absurd (ground arith)
  accepted-Adds c line key (x ∷ xs) v some_field types fresh full h = (
    (x ∷ xs, record c { parsed_entries = c.parsed_entries ++ key ∷ [] }),
    h,
    record {
      entries_fit =
          All-append_one (IsEntry L c.format) c.entries v.entries_fit
            (types, ground (arith, HasTypes-length L c.format (x ∷ xs) types));
      keys_unique = IsUnique-append_one (λ k l. streq l k) c.parsed_entries key v.keys_unique fresh;
    },
    refl,
    omega (arith, length-append c.entries ((x ∷ xs) ∷ [])),
  )

  parse_entry-Adds :
      (c : Catalog L) (line : CString)
      → InForm c
      → 0 < length c.format
      → IsReadable c.format line
      → Adds c (parse_entry L c line)
  unfolding parse_entry add_entry
  parse_entry-Adds c line v some_field (xs, h) =
      let types : HasTypes L c.format xs =
        subst (Gives (HasTypes L c.format)) h
          (create_fields-HasTypes L c.format (split b'|' line)) in
      let key = entry_str (split b'|' line) in
      elim (Bool-cases (any (streq key) c.parsed_entries)) [
        | inl twice ↦ (
          ([], write L c (text "Exception: duplicate entry" ∷ line ∷ [])),
          rw (parse_entry, h, twice) refl,
          record { entries_fit = v.entries_fit; keys_unique = v.keys_unique },
          refl,
          omega (arith, length-append c.out_file (text "Exception: duplicate entry" ∷ line ∷ [])),
        )
        | inr fresh ↦ elim (Bool-cases (ltb (length xs) (length c.format))) [
          | inl short ↦ (
            (
              [],
              write L (record c { parsed_entries = c.parsed_entries ++ key ∷ [] })
                  (text "Exception: missing field" ∷ line ∷ []),
            ),
            rw (parse_entry, h, fresh, short) refl,
            record {
              entries_fit = v.entries_fit;
              keys_unique =
                  IsUnique-append_one (λ k l. streq l k) c.parsed_entries key v.keys_unique fresh;
            },
            refl,
            omega (arith, length-append c.out_file (text "Exception: missing field" ∷ line ∷ [])),
          )
          | inr full ↦
              accepted-Adds c line key xs v some_field types fresh full
                (rw (parse_entry, h, fresh, full) refl)
        ]
      ]

  read_entries-cons :
      (c : Catalog L) (line : CString) (lines : List CString)
      (e : List (Field L.Double) × Catalog L)
      → parse_entry L c line ≡ value e
      → read_entries L c (line ∷ lines) ≡ read_entries L (add_entry L e.1 e.0) lines
  unfolding read_entries
  read_entries-cons c line lines e h = rw (read_entries, h) refl

  -- From a catalog in form whose format has a field, lines that can be read are all read: the
  -- catalog stays in form, with every entry typed by the format, and each line either becomes an
  -- entry or is reported in two lines of output.txt.
  pub read_entries-InForm :
      (c : Catalog L) (lines : List CString)
      → InForm c
      → 0 < length c.format
      → All (IsReadable c.format) lines
      → (d : Catalog L) × (read_entries L c lines ≡ value d)
        × InForm d
        × (d.format ≡ c.format)
        × (account d ≡ account c + 2 * length lines)
  unfolding read_entries
  read_entries-InForm c [] v some_field h = (c, refl, v, refl, omega arith)
  read_entries-InForm c (line ∷ lines) v some_field h =
      let (e, taken, w, same, more) = parse_entry-Adds c line v some_field h.0 in
      let (d, rest, x, format, total) =
        read_entries-InForm (add_entry L e.1 e.0) lines w
          (subst (λ f. 0 < length f) (sym same) some_field)
          (subst (λ f. All (IsReadable f) lines) (sym same) h.1) in
      (
        d,
        read_entries-cons c line lines e taken ∙ rest,
        x,
        format ∙ same,
        omega (arith, total, more),
      )
