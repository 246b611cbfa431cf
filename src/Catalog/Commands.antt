-- ===== src/Catalog/Commands.antt =====
-- PA5.cpp: the commands, and `main`.
use homeworks.Prelude.{
  ℕ, ◌+◌, Bool, true, false, List, [], ◌∷◌, ◌++◌, map, Option, none, some, ltb, ◌==◌, if◌then◌else◌,
  length, get_elem?, get_or, drop, any, position, CString, text, streq, decimal, strstr,
}
use homeworks.School.{word_of, skip_spaces}
use homeworks.Catalog.{
  Library, Outcome, value, uncaught, undefined, FieldFormat, Field, split, join, get_data,
}
use homeworks.Catalog.Entries.{Catalog, write, parse_format, read_entries}

-- What stands before the next quote, and behind it.
unfoldable pub cut_quote : CString → Option (CString × CString)
cut_quote [] = none
cut_quote (c ∷ s) =
    let rest = cut_quote s in
    if c == b'"' then some ([], s) else elim rest [ none ↦ none | some (a, b) ↦ some (c ∷ a, b) ]

-- The text between the next two quotes, and what follows them.
unfoldable pub quoted : CString → Option (CString × CString)
unfolding cut_quote
quoted s = elim (cut_quote s) [ none ↦ none | some (a, b) ↦ cut_quote b ]

pub data Command : Type 0 where
  search : CString → CString → Command
  sort : CString → Command

-- `none` is the exception "command is wrong".
unfoldable pub parse_command : CString → Option Command
unfolding quoted word_of skip_spaces
parse_command line =
    let (command, _) = word_of (skip_spaces line) in
    if streq command (text "search")
    then (elim (quoted line) [
      | none ↦ none
      | some (keyword, rest) ↦ elim (quoted rest) [
        | none ↦ none
        | some (field_name, _) ↦ some (search keyword field_name)
      ]
    ])
    else if streq command (text "sort")
    then (elim (quoted line) [ none ↦ none | some (field_name, _) ↦ some (sort field_name) ])
    else none

-- `a < b` on strings: byte by byte.
unfoldable pub string_lt : CString → CString → Bool
string_lt [] [] = false
string_lt [] (b ∷ t) = true
string_lt (a ∷ s) [] = false
string_lt (a ∷ s) (b ∷ t) =
    let rest = string_lt s t in if ltb a b then true else if a == b then rest else false

-- `s.find (keyword) != string::npos`
unfoldable pub contains : CString → CString → Bool
unfolding strstr
contains s keyword = elim (strstr s keyword) [ none ↦ false | some _ ↦ true ]

module _ (L : Library) where
  -- One line of `print` and of `search`.
  unfoldable pub row : List (Field L.Double) → CString
  unfolding join get_data
  row entry = join b'|' (map (get_data L) entry)

  unfoldable pub field_index : List FieldFormat → CString → Option ℕ
  field_index format field_name = position (λ f. streq f.name field_name) format

  -- The loop of `search`; `entry [field_index]` is undefined behind the last field.
  unfoldable pub matches : ℕ → CString → List (List (Field L.Double)) → Outcome (List CString)
  unfolding row get_data contains
  matches i keyword [] = value []
  matches i keyword (entry ∷ entries) = elim (get_elem? entry i) [
    | none ↦ undefined
    | some x ↦ elim (matches i keyword entries) [
      | undefined ↦ undefined
      | uncaught ↦ uncaught
      | value lines ↦ value (if contains (get_data L x) keyword then row entry ∷ lines else lines)
    ]
  ]

  -- `a [field_index] -> get_data () < b [field_index] -> get_data ()`, where both have the field.
  unfoldable pub goes_before : ℕ → List (Field L.Double) → List (Field L.Double) → Bool
  unfolding get_data string_lt
  goes_before i a b = elim (get_elem? a i) [
    | none ↦ false
    | some x ↦ elim (get_elem? b i) [
      | none ↦ false
      | some y ↦ string_lt (get_data L x) (get_data L y)
    ]
  ]

  -- Some entry has no field i. Then the comparison of `sort` is undefined, as soon as it sees it.
  unfoldable pub lacks_field : ℕ → List (List (Field L.Double)) → Bool
  lacks_field i entries = any (λ e. ltb (length e) (i + 1)) entries

  abbrev pub refuse : Catalog L → CString → Catalog L
  refuse c line = write L c (text "Exception: command is wrong" ∷ line ∷ [])

  unfoldable pub run_search : Catalog L → CString → CString → CString → Outcome (Catalog L)
  unfolding field_index matches
  run_search c line keyword field_name = elim (field_index c.format field_name) [
    | none ↦ value (refuse c line)
    | some i ↦ elim (matches i keyword c.entries) [
      | undefined ↦ undefined
      | uncaught ↦ uncaught
      | value lines ↦ value (write L c (line ∷ lines))
    ]
  ]

  unfoldable pub run_sort : Catalog L → CString → CString → Outcome (Catalog L)
  unfolding field_index lacks_field goes_before row
  run_sort c line field_name = elim (field_index c.format field_name) [
    | none ↦ value (refuse c line)
    | some i ↦
        if lacks_field i c.entries
        then undefined
        else (let sorted = L.sort_by _ (goes_before i) c.entries in
            value (write L (record c { entries = sorted }) (line ∷ map row sorted)))
  ]

  -- The loop of `main` over the lines of commands.txt.
  unfoldable pub run_command : Catalog L → CString → Outcome (Catalog L)
  unfolding parse_command run_search run_sort
  run_command c line = elim (parse_command line) [
    | none ↦ value (refuse c line)
    | some (search keyword field_name) ↦ run_search c line keyword field_name
    | some (sort field_name) ↦ run_sort c line field_name
  ]

  unfoldable pub run_commands : Catalog L → List CString → Outcome (Catalog L)
  unfolding run_command
  run_commands c [] = value c
  run_commands c (line ∷ lines) = elim (run_command c line) [
    | undefined ↦ undefined
    | uncaught ↦ uncaught
    | value d ↦ run_commands d lines
  ]

  -- Before the first entry: the format, and its names in output.txt.
  unfoldable pub new_catalog : CString → Catalog L
  unfolding parse_format join
  new_catalog format_line =
      let format = parse_format format_line in
      record {
        format = format;
        entries = [];
        parsed_entries = [];
        out_file = join b'|' (map (λ f. f.name) format) ∷ [];
      }

  -- `main` on the bytes of data.txt and commands.txt: the lines of output.txt.
  unfoldable pub main : CString → CString → Outcome (List CString)
  unfolding split new_catalog read_entries run_commands decimal
  main file_d file_c =
      let lines = split 10 file_d in
      elim (read_entries L (new_catalog (get_or lines 0 [])) (drop 1 lines)) [
        | undefined ↦ undefined
        | uncaught ↦ uncaught
        | value c ↦
            elim (run_commands
              (write L c ((decimal (length c.entries) ++ text " unique entries") ∷ []))
              (split 10 file_c)) [
                | undefined ↦ undefined
                | uncaught ↦ uncaught
                | value d ↦ value d.out_file
              ]
      ]
