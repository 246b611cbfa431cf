-- ===== src/Catalog/Entries.antt =====
-- PA5.cpp: the format line and the lines of the entries.
use homeworks.Prelude.{
  List, [], ◌∷◌, ◌++◌, map, ltb, if◌then◌else◌, length, get_or, any, CString, text, streq,
}
use homeworks.Catalog.{
  Library, Outcome, value, uncaught, undefined, FieldFormat, Field, split, create_field,
}

unfoldable pub parse_field : CString → FieldFormat
unfolding split
parse_field field =
    let parts = split b':' field in
    record {
      name = get_or parts 0 [];
      type_name = get_or parts 1 [];
      is_arr = streq (get_or parts 2 []) (text "multi");
    }

unfoldable pub parse_format : CString → List FieldFormat
unfolding split parse_field
parse_format format_line = map parse_field (split b'|' format_line)

-- `entry_str`: every value with a bar behind it.
unfoldable pub entry_str : List CString → CString
entry_str [] = []
entry_str (v ∷ vs) = v ++ b'|' ∷ entry_str vs

module _ (L : Library) where
  -- The loop over the values; a value behind the last field reads `format` out of its bounds.
  unfoldable pub create_fields : List FieldFormat → List CString → Outcome (List (Field L.Double))
  unfolding create_field
  create_fields format [] = value []
  create_fields [] (v ∷ vs) = undefined
  create_fields (f ∷ format) (v ∷ vs) = elim (create_field L f v) [
    | undefined ↦ undefined
    | uncaught ↦ uncaught
    | value x ↦ elim (create_fields format vs) [
      | undefined ↦ undefined
      | uncaught ↦ uncaught
      | value xs ↦ value (x ∷ xs)
    ]
  ]

  -- The catalog, the keys that `parse_entry` has seen, and the lines of output.txt.
  pub record Catalog : Type 0 where
    pub format : List FieldFormat
    pub entries : List (List (Field L.Double))
    pub parsed_entries : List CString
    pub out_file : List CString

  abbrev pub write : Catalog → List CString → Catalog
  write c lines = record c { out_file = c.out_file ++ lines }

  -- `parse_entry`: the entry, which is empty after an exception.
  unfoldable pub parse_entry : Catalog → CString → Outcome (List (Field L.Double) × Catalog)
  unfolding split create_fields entry_str
  parse_entry c entry_line =
      let values = split b'|' entry_line in
      elim (create_fields c.format values) [
        | undefined ↦ undefined
        | uncaught ↦ uncaught
        | value entry ↦
            if any (streq (entry_str values)) c.parsed_entries
            then value ([], write c (text "Exception: duplicate entry" ∷ entry_line ∷ []))
            else (let seen = record c {
              parsed_entries = c.parsed_entries ++ entry_str values ∷ [];
            } in
                if ltb (length entry) (length c.format)
                then value ([], write seen (text "Exception: missing field" ∷ entry_line ∷ []))
                else value (entry, seen))
      ]

  unfoldable pub add_entry : Catalog → List (Field L.Double) → Catalog
  add_entry c [] = c
  add_entry c (x ∷ xs) = record c { entries = c.entries ++ (x ∷ xs) ∷ [] }

  -- The loop of `main` over the lines of data.txt.
  unfoldable pub read_entries : Catalog → List CString → Outcome Catalog
  unfolding parse_entry add_entry
  read_entries c [] = value c
  read_entries c (line ∷ lines) = elim (parse_entry c line) [
    | undefined ↦ undefined
    | uncaught ↦ uncaught
    | value (entry, d) ↦ read_entries (add_entry d entry) lines
  ]
