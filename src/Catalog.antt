-- ===== src/Catalog.antt =====
-- Object Oriented Programming Spring/PA5/PA5.cpp: a catalog read from a text file, searched and
-- sorted by commands. This file has the fields of the entries and how they are read.
pub mod Entries
pub mod Commands
pub mod Splitting
pub mod Typing
pub mod InForm
pub mod Quotes
pub mod Lines
pub mod Whole
pub mod Examples
use homeworks.Prelude.{
  ℕ, ◌+◌, ◌-◌, ◌^◌, Bool, true, false, not, ◌&&◌, List, [], ◌∷◌, ◌++◌, map, Option, none, some, leb,
  ltb, ◌==◌, if◌then◌else◌, keep, CString, text, streq, ℤ, pos, negsuc, decimal_int, digits_value,
  ◌-ℤ◌,
}
use homeworks.Machine.Lexer.{isspace}
use homeworks.School.{stoi, skip_spaces}

-- What the standard library does to a double, and `std::sort`. `stod` gives `none` where it throws,
-- `read_double` (`>>`) where the stream has nothing left and the variable stays as it is.
pub record Library : Type 1 where
  pub Double : Type 0
  pub stod : CString → Option Double
  pub read_double : CString → Option Double
  pub to_string : Double → CString
  pub print_double : Double → CString
  pub sort_by : (A : Type 0) → (A → A → Bool) → List A → List A

-- What a call comes to: a value, an exception that nothing catches, or undefined behaviour.
pub data Outcome (A : Type 0) : Type 0 where
  value : A → Outcome A
  uncaught : Outcome A
  undefined : Outcome A

pub record FieldFormat : Type 0 where
  pub name : CString
  pub type_name : CString
  pub is_arr : Bool

pub data Field (D : Type 0) : Type 0 where
  field_str : CString → Field D
  field_str_arr : List CString → Field D
  field_char : ℕ → Field D
  field_char_arr : List ℕ → Field D
  field_int : ℤ → Field D
  field_int_arr : List ℤ → Field D
  field_double : D → Field D
  field_double_arr : List D → Field D

-- The byte c in front of the first token.
abbrev pub prepend : ℕ → List CString → List CString
prepend c [] = (c ∷ []) ∷ []
prepend c (t ∷ ts) = (c ∷ t) ∷ ts

-- `while (getline (ss, token, d))`: the tokens, none behind a last d.
unfoldable pub split : ℕ → CString → List CString
split d [] = []
split d (c ∷ s) = let rest = split d s in if c == d then [] ∷ rest else prepend c rest

-- The tokens with the byte d between them.
unfoldable pub join : ℕ → List CString → CString
join d [] = []
join d (s ∷ []) = s
join d (s ∷ t ∷ ts) = s ++ d ∷ join d (t ∷ ts)

-- `token_stream >> value` for an `int`: a number out of bounds becomes the nearest one, and text
-- that is no number becomes 0. `none` where the token is empty: `value` has no value then.
unfoldable pub read_int : CString → Option ℤ
unfolding skip_spaces digits_value
read_int token = elim (skip_spaces token) [
  | [] ↦ none
  | c ∷ s ↦
      if c == b'-'
      then (let n = digits_value s 0 in some (pos 0 -ℤ pos (if leb n (2 ^ 31) then n else 2 ^ 31)))
      else (let n = digits_value (if c == b'+' then s else c ∷ s) 0 in
          some (pos (if ltb n (2 ^ 31) then n else 2 ^ 31 - 1)))
]

-- The loop of the constructors of arrays over the tokens.
unfoldable pub read_all : {A : Type 0} → (CString → Option A) → List CString → Option (List A)
read_all read [] = some []
read_all read (t ∷ ts) = elim (read t) [
  | none ↦ none
  | some x ↦ elim (read_all read ts) [ none ↦ none | some xs ↦ some (x ∷ xs) ]
]

-- What `throw`s and what has no value, as outcomes.
abbrev pub or_uncaught : {A B : Type 0} → (A → B) → Option A → Outcome B
or_uncaught f none = uncaught
or_uncaught f (some x) = value (f x)

abbrev pub or_undefined : {A B : Type 0} → (A → B) → Option A → Outcome B
or_undefined f none = undefined
or_undefined f (some x) = value (f x)

abbrev first_byte : CString → ℕ
first_byte [] = 0
first_byte (c ∷ s) = c

module _ (L : Library) where
  unfoldable pub create_field : FieldFormat → CString → Outcome (Field L.Double)
  unfolding split read_int read_all stoi skip_spaces
  create_field format input =
      if streq format.type_name (text "string") && not format.is_arr
      then value (field_str input)
      else if streq format.type_name (text "string") && format.is_arr
      then value (field_str_arr (split b':' input))
      else if streq format.type_name (text "char") && not format.is_arr
      then value (field_char (first_byte input))
      else if streq format.type_name (text "char") && format.is_arr
      then value (field_char_arr (keep (λ c. not (isspace c) && not (c == b':')) input))
      else if streq format.type_name (text "integer") && not format.is_arr
      then or_uncaught field_int (stoi (skip_spaces input))
      else if streq format.type_name (text "integer") && format.is_arr
      then or_undefined field_int_arr (read_all read_int (split b':' input))
      else if streq format.type_name (text "double") && not format.is_arr
      then or_uncaught field_double (L.stod input)
      else if streq format.type_name (text "double") && format.is_arr
      then or_undefined field_double_arr (read_all L.read_double (split b':' input))
      else undefined

  unfoldable pub get_data : Field L.Double → CString
  unfolding join
  get_data (field_str x) = x
  get_data (field_str_arr x) = join b':' x
  get_data (field_char x) = x ∷ []
  get_data (field_char_arr x) = join b':' (map (λ c. c ∷ []) x)
  get_data (field_int x) = decimal_int x
  get_data (field_int_arr x) = join b':' (map decimal_int x)
  get_data (field_double x) = L.to_string x
  get_data (field_double_arr x) = join b':' (map L.print_double x)
