-- ===== src/Catalog/Examples.antt =====
-- The theorems on the catalog at a small data.txt, with doubles that are whole numbers.
use homeworks.Prelude.{
  ◌<◌, ◌≡◌, refl, true, Bool, List, [], ◌∷◌, ◌++◌, some, if◌then◌else◌, if_cases, length, CString,
  text, ℤ, arith, All, decimal_int, streq, starts_with, IsPermutation, same, cons, swap, trans,
}
use homeworks.School.{stoi, skip_spaces}
use homeworks.Catalog.{
  Library, value, undefined, FieldFormat, Field, field_str, field_str_arr, split, read_int,
  create_field,
}
use homeworks.Catalog.Entries.{
  Catalog, parse_field, parse_format, create_fields, parse_entry, read_entries,
}
use homeworks.Catalog.Commands.{search, parse_command, main, new_catalog, run_commands}
use homeworks.Catalog.Quotes.{print_command, parse_command-print_command}
use homeworks.Catalog.Lines.{parse_entry-undefined}
use homeworks.Catalog.InForm.{IsReadable}
use homeworks.Catalog.Whole.{Permutes, Ends, lines_of, format_of, main-InForm}

module _ {A : Type 0} (before : A → A → Bool) where
  unfoldable insert_by : A → List A → List A
  insert_by x [] = x ∷ []
  insert_by x (y ∷ ys) = let rest = insert_by x ys in if before y x then y ∷ rest else x ∷ y ∷ ys

  insert_by-IsPermutation : (x : A) (ys : List A) → IsPermutation (x ∷ ys) (insert_by x ys)
  unfolding insert_by
  insert_by-IsPermutation x [] = same
  insert_by-IsPermutation x (y ∷ ys) =
      if_cases (IsPermutation (x ∷ y ∷ ys)) (before y x)
        (λ _. trans swap (cons (insert_by-IsPermutation x ys))) (λ _. same)

  unfoldable insertion_sort : List A → List A
  unfolding insert_by
  insertion_sort [] = []
  insertion_sort (x ∷ xs) = insert_by x (insertion_sort xs)

  insertion_sort-IsPermutation : (xs : List A) → IsPermutation xs (insertion_sort xs)
  unfolding insertion_sort
  insertion_sort-IsPermutation [] = same
  insertion_sort-IsPermutation (x ∷ xs) =
      trans (cons (insertion_sort-IsPermutation xs)) (insert_by-IsPermutation x (insertion_sort xs))

abbrev whole_numbers : Library
whole_numbers = record {
  Double = ℤ;
  stod = λ s. stoi (skip_spaces s);
  read_double = read_int;
  to_string = decimal_int;
  print_double = decimal_int;
  sort_by = λ A before xs. insertion_sort before xs;
}

sorts : Permutes whole_numbers
sorts A before xs = insertion_sort-IsPermutation before xs

abbrev file_d : CString
file_d =
    text "name:string:single|tags:string:multi"
    ++ 10 ∷ (text "Emma|a:b" ++ 10 ∷ (text "Emma|a:b" ++ 10 ∷ text "Ada"))

abbrev file_c : CString
file_c = text "sort \"name\"" ++ 10 ∷ text "search \"a\" in \"tags\""

abbrev emma : List (Field ℤ)
emma = field_str (text "Emma") ∷ field_str_arr (text "a" ∷ text "b" ∷ []) ∷ []

abbrev ada : List (Field ℤ)
ada = field_str (text "Ada") ∷ []

some_field : 0 < length (format_of file_d)
unfolding parse_format split text
some_field = omega arith

readable : All (IsReadable whole_numbers (format_of file_d)) (lines_of file_d)
unfolding parse_format parse_field create_fields create_field split text streq
readable = ((emma, refl), ((emma, refl), ((ada, refl), tt)))

main-InForm_example : Ends whole_numbers file_d file_c (main whole_numbers file_d file_c)
main-InForm_example = main-InForm whole_numbers file_d file_c sorts some_field readable

parse_command-print_command_example :
    parse_command (print_command (search (text "a b") (text "tags")))
    ≡ some (search (text "a b") (text "tags"))
unfolding text
parse_command-print_command_example =
    parse_command-print_command (search (text "a b") (text "tags")) (refl, refl)

abbrev tags : FieldFormat
tags = record { name = text "tags"; type_name = text "string"; is_arr = true }

abbrev tags_only : Catalog whole_numbers
tags_only = record { format = tags ∷ []; entries = []; parsed_entries = []; out_file = [] }

parse_entry-undefined_example : parse_entry whole_numbers tags_only (text "a:b|c") ≡ undefined
unfolding create_fields create_field split text streq
parse_entry-undefined_example =
    parse_entry-undefined whole_numbers tags_only (text "a:b|c")
      (field_str_arr (text "a" ∷ text "b" ∷ []) ∷ []) refl (omega arith)

-- The entries come out sorted, the second line of data.txt is a duplicate, the third lacks a field.
main_run :
    main whole_numbers file_d file_c
    ≡ value (
        text "name|tags"
        ∷ text "Exception: duplicate entry"
        ∷ text "Emma|a:b"
        ∷ text "Exception: missing field"
        ∷ text "Ada"
        ∷ text "1 unique entries"
        ∷ text "sort \"name\""
        ∷ text "Emma|a:b"
        ∷ text "search \"a\" in \"tags\""
        ∷ text "Emma|a:b"
        ∷ [])
unfolding main new_catalog read_entries parse_entry run_commands text streq insertion_sort
    starts_with
main_run = refl
