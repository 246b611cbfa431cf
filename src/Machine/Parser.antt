-- ===== src/Machine/Parser.antt =====
-- parser.cpp: the reading of a program file. A std::string is the list of its bytes.
pub mod Words
pub mod Numbers
pub mod Print
pub mod Markers
pub mod File
use homeworks.Prelude.{
  ℕ, zero, suc, ◌+◌, ◌-◌, ◌*◌, ◌%◌, ◌^◌, Bool, true, false, ◌&&◌, ◌||◌, Option, none, some, List,
  [], ◌∷◌, ◌++◌, ltb, leb, ◌==◌, if◌then◌else◌, update, CString, text, streq, isdigit, strstr,
  digits_value,
}
use homeworks.Machine.{
  InstructionType, set, cpy, cpyi, cpyi2, add, addi, subi, jif, push, pop, call, ret, hlt, user,
  syscall, SyscallType, prn, yield, Instruction,
}
use homeworks.Machine.Lexer.{remove_comment, tokenize, stol, stoul}

pub record Parser : Type 0 where
  pub parsing_data_section : Bool
  pub parsing_instruction_section : Bool
  pub data_segment : List (ℕ × ℕ)
  pub instructions : List Instruction
  pub instruction_map : ℕ → Option Instruction

-- The parser after its file is opened.
abbrev pub cleared : Parser
cleared = record {
  parsing_data_section = false;
  parsing_instruction_section = false;
  data_segment = [];
  instructions = [];
  instruction_map = λ _. none;
}

infixl 5 ◌>>=◌
abbrev pub ◌>>=◌ {ℓ κ} : {A : Type ℓ} {B : Type κ} → Option A → (A → Option B) → Option B
none >>= f = none
some a >>= f = f a

-- `none` is an exception or an early return: the line is dropped.
unfoldable pub data_entry : List CString → Option (ℕ × ℕ)
unfolding stol stoul
data_entry [] = none
data_entry (a ∷ []) = none
data_entry (a ∷ v ∷ rest) = do address ← stoul a; value ← stol v; some (address, value)

unfoldable pub process_data_line : CString → Parser → Parser
unfolding data_entry tokenize remove_comment
process_data_line line p = elim (data_entry (tokenize (remove_comment line))) [
  | none ↦ p
  | some entry ↦ record p { data_segment = p.data_segment ++ entry ∷ [] }
]

-- The operands behind the instruction's name; too few are none at all.
unfoldable pub two_numbers : List CString → Option (List ℕ)
unfolding stol
two_numbers [] = some []
two_numbers (a ∷ []) = some []
two_numbers (a ∷ b ∷ rest) = do x ← stol a; y ← stol b; some (x ∷ y ∷ [])

unfoldable pub one_number : List CString → Option (List ℕ)
unfolding stol
one_number [] = some []
one_number (a ∷ rest) = do x ← stol a; some (x ∷ [])

-- How the rest of the line is read.
pub data Shape : Type 0 where
  two one zero_operands system : Shape

unfoldable pub shape : InstructionType → Shape
shape set = two
shape cpy = two
shape cpyi = two
shape cpyi2 = two
shape add = two
shape addi = two
shape subi = two
shape jif = two
shape push = one
shape pop = one
shape call = one
shape ret = zero_operands
shape hlt = zero_operands
shape user = one
shape syscall = system

-- The names, in the order of the comparisons.
abbrev pub name_of : InstructionType → CString
name_of set = text "SET"
name_of cpy = text "CPY"
name_of cpyi = text "CPYI"
name_of cpyi2 = text "CPYI2"
name_of add = text "ADD"
name_of addi = text "ADDI"
name_of subi = text "SUBI"
name_of jif = text "JIF"
name_of push = text "PUSH"
name_of pop = text "POP"
name_of call = text "CALL"
name_of ret = text "RET"
name_of hlt = text "HLT"
name_of user = text "USER"
name_of syscall = text "SYSCALL"

abbrev pub all_types : List InstructionType
all_types =
    set ∷ cpy ∷ cpyi ∷ cpyi2 ∷ add ∷ addi ∷ subi ∷ jif ∷ push ∷ pop ∷ call ∷ ret ∷ hlt ∷ user
    ∷ syscall ∷ []

unfoldable pub find_type : List InstructionType → CString → Option InstructionType
unfolding streq
find_type [] name = none
find_type (t ∷ ts) name = if streq name (name_of t) then some t else find_type ts name

unfoldable pub system_call : List CString → Option (Option SyscallType × List ℕ)
unfolding streq one_number
system_call [] = some (none, [])
system_call (kind ∷ rest) =
    if streq kind (text "PRN")
    then (one_number rest >>= λ operands. some (some prn, operands))
    else if streq kind (text "HLT")
    then some (some SyscallType.hlt, [])
    else if streq kind (text "YIELD")
    then some (some yield, [])
    else none

abbrev pub plain : InstructionType → Option (List ℕ) → Option Instruction
plain t none = none
plain t (some operands) = some (record { type = t; syscall_type = none; operands = operands })

unfoldable pub instruction_of : InstructionType → List CString → Option Instruction
unfolding shape two_numbers one_number system_call
instruction_of t rest = elim (shape t) [
  | two ↦ plain t (two_numbers rest)
  | one ↦ plain t (one_number rest)
  | zero_operands ↦ plain t (some [])
  | system ↦
      (system_call rest >>= λ call.
      some (record { type = t; syscall_type = call.0; operands = call.1 }))
]

unfoldable pub instruction_entry : List CString → Option (ℕ × Instruction)
unfolding stoul find_type instruction_of
instruction_entry [] = none
instruction_entry (a ∷ []) = none
instruction_entry (a ∷ name ∷ rest) = do
  address ← stoul a
  t ← find_type all_types name
  i ← instruction_of t rest
  some (address, i)

unfoldable pub process_instruction_line : CString → Parser → Parser
unfolding instruction_entry tokenize remove_comment
process_instruction_line line p = elim (instruction_entry (tokenize (remove_comment line))) [
  | none ↦ p
  | some (address, i) ↦ record p {
    instructions = p.instructions ++ i ∷ [];
    instruction_map = update p.instruction_map address (some i);
  }
]

unfoldable pub contains : CString → CString → Bool
unfolding strstr
contains line term = elim (strstr line term) [ none ↦ false | some _ ↦ true ]

-- One line of the file.
unfoldable pub parse_line : CString → Parser → Parser
unfolding process_data_line process_instruction_line
parse_line [] p = p
parse_line (c ∷ s) p =
    let line = c ∷ s in
    if contains line (text "Begin Data Section")
    then record p { parsing_data_section = true; parsing_instruction_section = false }
    else if contains line (text "End Data Section")
    then record p { parsing_data_section = false }
    else if contains line (text "Begin Instruction Section")
    then record p { parsing_data_section = false; parsing_instruction_section = true }
    else if contains line (text "End Instruction Section")
    then record p { parsing_instruction_section = false }
    else if p.parsing_data_section
    then process_data_line line p
    else if p.parsing_instruction_section
    then process_instruction_line line p
    else p

unfoldable pub parse_lines : List CString → Parser → Parser
unfolding parse_line
parse_lines [] p = p
parse_lines (line ∷ lines) p = parse_lines lines (parse_line line p)

-- The file is the list of its lines, as `std::getline` gives them.
unfoldable pub parse_file : List CString → Parser
unfolding parse_lines
parse_file lines = parse_lines lines cleared
