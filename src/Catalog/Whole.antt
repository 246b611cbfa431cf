-- ===== src/Catalog/Whole.antt =====
-- The commands on a catalog in form, and the whole program.
use homeworks.Prelude.{
  ℕ, ◌+◌, ◌*◌, if◌then◌else◌, ◌<◌, ◌≡◌, inl, inr, refl, sym, ◌∙◌, subst, false, List, [], ◌∷◌, ◌++◌,
  map, Option-cases, Bool, some, length, get_or, drop, get_elem?-some, CString, text, arith, All,
  All-map, decimal, le→ltb, streq, position-lt, IsPermutation, All-IsPermutation,
}
use homeworks.Prelude.{same, trans}
use homeworks.Catalog.{Library, Outcome, value, FieldFormat, Field, split, get_data}
use homeworks.Catalog.Entries.{Catalog, write, read_entries, parse_format}
use homeworks.Catalog.Commands.{
  Command, search, sort, parse_command, row, contains, field_index, matches, goes_before,
  lacks_field, refuse, run_search, run_sort, run_command, run_commands, new_catalog, main,
}
use homeworks.Catalog.Typing.{IsEntry}
use homeworks.Catalog.InForm.{InForm, IsReadable, read_entries-InForm}

-- The format and the lines of data.txt.
abbrev pub format_of : CString → List FieldFormat
format_of file_d = parse_format (get_or (split 10 file_d) 0 [])

abbrev pub lines_of : CString → List CString
lines_of file_d = drop 1 (split 10 file_d)

module _ (L : Library) where
  abbrev HasField : ℕ → List (Field L.Double) → Type 0
  HasField i entry = i < length entry

  matches-value :
      (i : ℕ) (keyword : CString) (entries : List (List (Field L.Double)))
      → All (HasField i) entries
      → (lines : List CString) × (matches L i keyword entries ≡ value lines)
  unfolding matches
  matches-value i keyword [] h = ([], refl)
  matches-value i keyword (entry ∷ entries) h =
      let (x, e) = get_elem?-some entry i h.0 in
      let (lines, rest) = matches-value i keyword entries h.1 in
      (
        if contains (get_data L x) keyword then row L entry ∷ lines else lines,
        rw (matches, e, rest) refl,
      )

  lacks_field-none :
      (i : ℕ) (entries : List (List (Field L.Double)))
      → All (HasField i) entries
      → lacks_field L i entries ≡ false
  unfolding lacks_field
  lacks_field-none i [] h = refl
  lacks_field-none i (entry ∷ entries) h =
      rw (le→ltb (length entry) (i + 1) (omega (arith, h.0))) (lacks_field-none i entries h.1)

  -- What `std::sort` promises: the same elements in another order.
  abbrev pub Permutes : Type 1
  Permutes =
      (A : Type 0) (before : A → A → Bool) (xs : List A) → IsPermutation xs (L.sort_by A before xs)

  -- A command is carried out or refused, and the entries are the same in some order.
  abbrev pub Keeps : Catalog L → Outcome (Catalog L) → Type 0
  Keeps c out = (d : Catalog L) × (out ≡ value d) × InForm L d × IsPermutation c.entries d.entries

  field_index-HasField :
      (c : Catalog L) (field_name : CString) (i : ℕ)
      → InForm L c
      → field_index L c.format field_name ≡ some i
      → All (HasField i) c.entries
  unfolding field_index
  field_index-HasField c field_name i v h =
      All-map
        (λ entry e. omega (arith, position-lt (λ f. streq f.name field_name) c.format i h, e.1))
        c.entries v.entries_fit

  run_search-Keeps :
      (c : Catalog L) (line keyword field_name : CString)
      → InForm L c
      → Keeps c (run_search L c line keyword field_name)
  unfolding run_search
  run_search-Keeps c line keyword field_name v =
      elim (Option-cases (field_index L c.format field_name)) [
        | inl e ↦ (
          refuse L c line,
          rw (run_search, e) refl,
          record { entries_fit = v.entries_fit; keys_unique = v.keys_unique },
          same,
        )
        | inr (i, e) ↦
            let (lines, found) =
              matches-value i keyword c.entries (field_index-HasField c field_name i v e) in
            (
              write L c (line ∷ lines),
              rw (run_search, e, found) refl,
              record { entries_fit = v.entries_fit; keys_unique = v.keys_unique },
              same,
            )
      ]

  run_sort-Keeps :
      (c : Catalog L) (line field_name : CString)
      → Permutes
      → InForm L c
      → Keeps c (run_sort L c line field_name)
  unfolding run_sort
  run_sort-Keeps c line field_name p v = elim (Option-cases (field_index L c.format field_name)) [
    | inl e ↦ (
      refuse L c line,
      rw (run_sort, e) refl,
      record { entries_fit = v.entries_fit; keys_unique = v.keys_unique },
      same,
    )
    | inr (i, e) ↦
        let sorted = L.sort_by _ (goes_before L i) c.entries in
        let order = p _ (goes_before L i) c.entries in
        (
          write L (record c { entries = sorted }) (line ∷ map (row L) sorted),
          rw (run_sort, e, lacks_field-none i c.entries (field_index-HasField c field_name i v e))
              refl,
          record {
            entries_fit = All-IsPermutation (IsEntry L c.format) order v.entries_fit;
            keys_unique = v.keys_unique;
          },
          order,
        )
  ]

  run_command-Keeps :
      (c : Catalog L) (line : CString) → Permutes → InForm L c → Keeps c (run_command L c line)
  unfolding run_command
  run_command-Keeps c line p v = elim (Option-cases (parse_command line)) [
    | inl e ↦ (
      refuse L c line,
      rw (run_command, e) refl,
      record { entries_fit = v.entries_fit; keys_unique = v.keys_unique },
      same,
    )
    | inr (command, e) ↦ subst (Keeps c) (sym (rw (run_command, e) refl)) (run command)
  ]
    where
      run :
          (command : Command)
          → Keeps c (elim command [
            | search keyword field_name ↦ run_search L c line keyword field_name
            | sort field_name ↦ run_sort L c line field_name
          ])
      run (search keyword field_name) = run_search-Keeps c line keyword field_name v
      run (sort field_name) = run_sort-Keeps c line field_name p v

  run_commands-cons :
      (c d : Catalog L) (line : CString) (lines : List CString)
      → run_command L c line ≡ value d
      → run_commands L c (line ∷ lines) ≡ run_commands L d lines
  unfolding run_commands
  run_commands-cons c d line lines h = rw (run_commands, h) refl

  -- When `std::sort` gives a permutation of what it gets, all commands are carried out or refused
  -- on a catalog in form; it stays in form, and has the same entries in some order.
  pub run_commands-Keeps :
      (c : Catalog L) (lines : List CString)
      → Permutes
      → InForm L c
      → Keeps c (run_commands L c lines)
  unfolding run_commands
  run_commands-Keeps c [] p v = (c, refl, v, same)
  run_commands-Keeps c (line ∷ lines) p v =
      let (d, done, w, order) = run_command-Keeps c line p v in
      let (e, rest, x, more) = run_commands-Keeps d lines p w in
      (e, run_commands-cons c d line lines done ∙ rest, x, trans order more)

  abbrev pub Ends : CString → CString → Outcome (List CString) → Type 0
  Ends file_d file_c out =
      (c : Catalog L) × (d : Catalog L) × (read_entries L
          (new_catalog L (get_or (split 10 file_d) 0 [])) (lines_of file_d)
        ≡ value c)
      × (2 * length c.entries + length c.out_file ≡ 1 + 2 * length (lines_of file_d))
      × (out ≡ value d.out_file)
      × InForm L d
      × IsPermutation c.entries d.entries

  new_catalog-InForm : (line : CString) → InForm L (new_catalog L line)
  unfolding new_catalog
  new_catalog-InForm line = record { entries_fit = tt; keys_unique = tt }

  main-steps :
      (file_d file_c : CString) (c d : Catalog L)
      → read_entries L (new_catalog L (get_or (split 10 file_d) 0 [])) (lines_of file_d) ≡ value c
      → run_commands L
          (write L c ((decimal (length c.entries) ++ text " unique entries") ∷ []))
          (split 10 file_c)
        ≡ value d
      → main L file_d file_c ≡ value d.out_file
  unfolding main
  main-steps file_d file_c c d h k = rw (main, h, k) refl

  -- When `std::sort` gives a permutation of what it gets, the format line names a field, and every
  -- line of data.txt can be read, the program ends without an uncaught exception and without
  -- undefined behaviour, for every file of commands. Each line has become an entry or is reported in
  -- two lines of output.txt, below the line of names, and the commands have kept the entries, typed
  -- by the format, in some order.
  pub main-InForm :
      (file_d file_c : CString)
      → Permutes
      → 0 < length (format_of file_d)
      → All (IsReadable L (format_of file_d)) (lines_of file_d)
      → Ends file_d file_c (main L file_d file_c)
  unfolding new_catalog
  main-InForm file_d file_c p some_field h =
      let start = new_catalog L (get_or (split 10 file_d) 0 []) in
      let (c, taken, v, _, total) =
        read_entries-InForm L start (lines_of file_d)
          (new_catalog-InForm (get_or (split 10 file_d) 0 [])) some_field h in
      let counted = write L c ((decimal (length c.entries) ++ text " unique entries") ∷ []) in
      let (d, done, w, order) =
        run_commands-Keeps counted (split 10 file_c) p
          (record { entries_fit = v.entries_fit; keys_unique = v.keys_unique }) in
      (c, d, taken, omega (arith, total), main-steps file_d file_c c d taken done, w, order)
