-- ===== src/Machine/Parser/Print.antt =====
-- A program as text, in the form that the parser reads.

use homeworks.Prelude.{
  ℕ, ◌^◌, ◌<◌, ◌≡◌, refl, List, [], ◌∷◌, ◌++◌, none, some, CString, text, decimal, update,
}
use homeworks.Machine.{
  InstructionType, set, cpy, cpyi, cpyi2, add, addi, subi, jif, push, pop, call, ret, hlt, user,
  syscall, SyscallType, prn, yield, Instruction,
}
use homeworks.Machine.Parser.{
  Parser, name_of, all_types, find_type, two_numbers, one_number, system_call, instruction_of,
  instruction_entry, process_instruction_line, process_data_line, data_entry, two, one,
  zero_operands, shape,
}
use homeworks.Machine.Parser.Words.{IsWord, AllWords, join, tokenize-remove_comment}
use homeworks.Machine.Parser.Numbers.{
  long_text, stol-long_text, stoul-decimal, decimal-IsWord, long_text-IsWord,
}

-- The lines of a program, with the operands that the handlers want.
pub data Line : Type 0 where
  binary : InstructionType → ℕ → ℕ → Line
  unary : InstructionType → ℕ → Line
  nullary : InstructionType → Line
  print_call : ℕ → Line
  hlt_call yield_call : Line

abbrev pub instruction : Line → Instruction
instruction (binary t a b) = record { type = t; syscall_type = none; operands = a ∷ b ∷ [] }
instruction (unary t a) = record { type = t; syscall_type = none; operands = a ∷ [] }
instruction (nullary t) = record { type = t; syscall_type = none; operands = [] }
instruction (print_call a) = record { type = syscall; syscall_type = some prn; operands = a ∷ [] }
instruction hlt_call = record { type = syscall; syscall_type = some SyscallType.hlt; operands = [] }
instruction yield_call = record { type = syscall; syscall_type = some yield; operands = [] }

-- The type takes as many operands as the line has, and these are 64-bit words.
abbrev pub IsLine : Line → Type 0
IsLine (binary t a b) = (shape t ≡ two) × (a < 2 ^ 64) × (b < 2 ^ 64)
IsLine (unary t a) = (shape t ≡ one) × (a < 2 ^ 64)
IsLine (nullary t) = shape t ≡ zero_operands
IsLine (print_call a) = a < 2 ^ 64
IsLine hlt_call = Unit {0}
IsLine yield_call = Unit {0}

abbrev pub type_of : Line → InstructionType
type_of l = (instruction l).type

-- The words behind the instruction's name.
abbrev pub operand_words : Line → List CString
operand_words (binary t a b) = long_text a ∷ long_text b ∷ []
operand_words (unary t a) = long_text a ∷ []
operand_words (nullary t) = []
operand_words (print_call a) = text "PRN" ∷ long_text a ∷ []
operand_words hlt_call = text "HLT" ∷ []
operand_words yield_call = text "YIELD" ∷ []

-- The line of an instruction at its address.
unfoldable pub print_instruction : ℕ → Line → CString
print_instruction address l = join (decimal address ∷ name_of (type_of l) ∷ operand_words l)

unfoldable pub print_data : ℕ → ℕ → CString
print_data address value = join (decimal address ∷ long_text value ∷ [])

find_type-name_of : (t : InstructionType) → find_type all_types (name_of t) ≡ some t
unfolding find_type text
find_type-name_of set = refl
find_type-name_of cpy = refl
find_type-name_of cpyi = refl
find_type-name_of cpyi2 = refl
find_type-name_of add = refl
find_type-name_of addi = refl
find_type-name_of subi = refl
find_type-name_of jif = refl
find_type-name_of push = refl
find_type-name_of pop = refl
find_type-name_of call = refl
find_type-name_of ret = refl
find_type-name_of hlt = refl
find_type-name_of user = refl
find_type-name_of syscall = refl

name_of-IsWord : (t : InstructionType) → IsWord (name_of t)
unfolding text
name_of-IsWord set = (refl, (refl, (refl, tt)))
name_of-IsWord cpy = (refl, (refl, (refl, tt)))
name_of-IsWord cpyi = (refl, (refl, (refl, (refl, tt))))
name_of-IsWord cpyi2 = (refl, (refl, (refl, (refl, (refl, tt)))))
name_of-IsWord add = (refl, (refl, (refl, tt)))
name_of-IsWord addi = (refl, (refl, (refl, (refl, tt))))
name_of-IsWord subi = (refl, (refl, (refl, (refl, tt))))
name_of-IsWord jif = (refl, (refl, (refl, tt)))
name_of-IsWord push = (refl, (refl, (refl, (refl, tt))))
name_of-IsWord pop = (refl, (refl, (refl, tt)))
name_of-IsWord call = (refl, (refl, (refl, (refl, tt))))
name_of-IsWord ret = (refl, (refl, (refl, tt)))
name_of-IsWord hlt = (refl, (refl, (refl, tt)))
name_of-IsWord user = (refl, (refl, (refl, (refl, tt))))
name_of-IsWord syscall = (refl, (refl, (refl, (refl, (refl, (refl, (refl, tt)))))))

operand_words-AllWords : (l : Line) → AllWords (operand_words l)
unfolding text
operand_words-AllWords (binary t a b) = (long_text-IsWord a, (long_text-IsWord b, tt))
operand_words-AllWords (unary t a) = (long_text-IsWord a, tt)
operand_words-AllWords (nullary t) = tt
operand_words-AllWords (print_call a) = ((refl, (refl, (refl, tt))), (long_text-IsWord a, tt))
operand_words-AllWords hlt_call = ((refl, (refl, (refl, tt))), tt)
operand_words-AllWords yield_call = ((refl, (refl, (refl, (refl, (refl, tt))))), tt)

instruction_of-words :
    (l : Line) → IsLine l → instruction_of (type_of l) (operand_words l) ≡ some (instruction l)
unfolding instruction_of two_numbers one_number system_call text
instruction_of-words (binary t a b) h =
    rw (instruction_of, h.0, stol-long_text a h.1, stol-long_text b h.2) refl
instruction_of-words (unary t a) h = rw (instruction_of, h.0, stol-long_text a h.1) refl
instruction_of-words (nullary t) h = rw (instruction_of, h) refl
instruction_of-words (print_call a) h = rw (stol-long_text a h) refl
instruction_of-words hlt_call h = refl
instruction_of-words yield_call h = refl

instruction_entry-words :
    (address : ℕ) (l : Line)
    → address < 2 ^ 64
    → IsLine l
    → instruction_entry (decimal address ∷ name_of (type_of l) ∷ operand_words l)
      ≡ some (address, instruction l)
unfolding instruction_entry
instruction_entry-words address l h k =
    rw (stoul-decimal address h, find_type-name_of (type_of l), instruction_of-words l k) refl

-- The parser reads the line of an instruction back: it puts the instruction at its address, and
-- behind those that it has read.
pub process_instruction_line-print_instruction :
    (address : ℕ) (l : Line) (p : Parser)
    → address < 2 ^ 64
    → IsLine l
    → process_instruction_line (print_instruction address l) p ≡ record p {
      instructions = p.instructions ++ instruction l ∷ [];
      instruction_map = update p.instruction_map address (some (instruction l));
    }
unfolding process_instruction_line print_instruction
process_instruction_line-print_instruction address l p h k =
    rw
      (
        tokenize-remove_comment (decimal address ∷ name_of (type_of l) ∷ operand_words l)
            (decimal-IsWord address, (name_of-IsWord (type_of l), operand_words-AllWords l)),
        instruction_entry-words address l h k,
        process_instruction_line,
      )
      refl

-- It reads the line of a data entry back likewise, any 64-bit value with its sign.
pub process_data_line-print_data :
    (address value : ℕ) (p : Parser)
    → address < 2 ^ 64
    → value < 2 ^ 64
    → process_data_line (print_data address value) p
      ≡ record p { data_segment = p.data_segment ++ (address, value) ∷ [] }
unfolding process_data_line print_data data_entry
process_data_line-print_data address value p h k =
    rw
      (
        tokenize-remove_comment (decimal address ∷ long_text value ∷ [])
            (decimal-IsWord address, (long_text-IsWord value, tt)),
        stoul-decimal address h,
        stol-long_text value k,
        process_data_line,
      )
      refl
