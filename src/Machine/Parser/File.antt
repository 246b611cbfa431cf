-- ===== src/Machine/Parser/File.antt =====
-- A whole program file: the printed sections are read back.
use mathlib.Core.List.{append_assoc, append-nil}
use homeworks.Prelude.{
  ℕ, ◌^◌, ◌<◌, ◌≡◌, refl, ap, ◌∙◌, true, false, List, [], ◌∷◌, ◌++◌, map, Option, none, some,
  CString, update,
}
use homeworks.Machine.{Instruction}
use homeworks.Machine.Parser.{Parser, cleared, parse_lines, parse_file}
use homeworks.Machine.Parser.Print.{
  Line, instruction, IsLine, print_instruction, print_data,
  process_instruction_line-print_instruction, process_data_line-print_data,
}
use homeworks.Machine.Parser.Markers.{
  begin_data, end_data, begin_instructions, end_instructions, parse-begin_data, parse-end_data,
  parse-begin_instructions, parse-end_instructions, parse_line-data, parse_line-instruction,
  print_data-AllChars, print_instruction-AllChars,
}

-- The state behind the lines of a data section, and behind those of an instruction section.
with_data : List (ℕ × ℕ) → Parser → Parser
with_data entries p = record p { data_segment = p.data_segment ++ entries }

pub installed : List (ℕ × Line) → (ℕ → Option Instruction) → ℕ → Option Instruction
installed [] m = m
installed ((address, l) ∷ rest) m = installed rest (update m address (some (instruction l)))

abbrev AreEntries : List (ℕ × ℕ) → Type 0
AreEntries [] = Unit {0}
AreEntries ((a, v) ∷ rest) = ((a < 2 ^ 64) × (v < 2 ^ 64)) × AreEntries rest

abbrev AreLines : List (ℕ × Line) → Type 0
AreLines [] = Unit {0}
AreLines ((a, l) ∷ rest) = ((a < 2 ^ 64) × IsLine l) × AreLines rest

data_lines : List (ℕ × ℕ) → List CString
data_lines = map (λ e. print_data e.0 e.1)

instruction_lines : List (ℕ × Line) → List CString
instruction_lines = map (λ e. print_instruction e.0 e.1)

parse_lines-data_lines :
    (entries : List (ℕ × ℕ)) (p : Parser) (rest : List CString)
    → AreEntries entries
    → p.parsing_data_section ≡ true
    → parse_lines (data_lines entries ++ rest) p ≡ parse_lines rest (with_data entries p)
unfolding parse_lines data_lines with_data
parse_lines-data_lines [] p rest h e = rw (append-nil p.data_segment) refl
parse_lines-data_lines ((a, v) ∷ entries) p rest h e =
    ap (parse_lines (data_lines entries ++ rest)) (
      parse_line-data (print_data a v) p (print_data-AllChars a v) e
      ∙ process_data_line-print_data a v p h.0.0 h.0.1)
    ∙ parse_lines-data_lines entries (with_data ((a, v) ∷ []) p) rest h.1 e
    ∙ ap (λ (d : List (ℕ × ℕ)). parse_lines rest (record p { data_segment = d }))
        (append_assoc p.data_segment ((a, v) ∷ []) entries)

parse_lines-instruction_lines :
    (code : List (ℕ × Line)) (p : Parser) (rest : List CString)
    → AreLines code
    → p.parsing_data_section ≡ false
    → p.parsing_instruction_section ≡ true
    → parse_lines (instruction_lines code ++ rest) p
      ≡ parse_lines rest (record p {
        instructions = p.instructions ++ map (λ e. instruction e.1) code;
        instruction_map = installed code p.instruction_map;
      })
unfolding parse_lines instruction_lines installed
parse_lines-instruction_lines [] p rest h e f = rw (append-nil p.instructions) refl
parse_lines-instruction_lines ((a, l) ∷ code) p rest h e f =
    ap (parse_lines (instruction_lines code ++ rest)) (
      parse_line-instruction (print_instruction a l) p (print_instruction-AllChars a l) e f
      ∙ process_instruction_line-print_instruction a l p h.0.0 h.0.1)
    ∙ parse_lines-instruction_lines code
        (record p {
          instructions = p.instructions ++ instruction l ∷ [];
          instruction_map = update p.instruction_map a (some (instruction l));
        })
        rest h.1 e f
    ∙ ap
        (λ (is : List Instruction). parse_lines rest (record p {
          instructions = is;
          instruction_map = installed code (update p.instruction_map a (some (instruction l)));
        }))
        (append_assoc p.instructions (instruction l ∷ []) (map (λ e. instruction e.1) code))

-- A program file with its two sections.
pub print_file : List (ℕ × ℕ) → List (ℕ × Line) → List CString
print_file entries code =
    begin_data
    ∷ (data_lines entries
        ++ end_data ∷ begin_instructions ∷ (instruction_lines code ++ end_instructions ∷ []))

-- A program file that is printed with any data and any instructions is read back: the data segment
-- and the list of instructions in their order, and the map from addresses to instructions, in which
-- the last line for an address counts.
pub parse_file-print_file :
    (entries : List (ℕ × ℕ)) (code : List (ℕ × Line))
    → AreEntries entries
    → AreLines code
    → parse_file (print_file entries code) ≡ record {
      parsing_data_section = false;
      parsing_instruction_section = false;
      data_segment = entries;
      instructions = map (λ e. instruction e.1) code;
      instruction_map = installed code (λ _. none);
    }
unfolding parse_file parse_lines print_file with_data
parse_file-print_file entries code h k =
    ap (parse_lines (data_lines entries ++ end_data ∷ behind)) (parse-begin_data cleared)
    ∙ parse_lines-data_lines entries in_data (end_data ∷ behind) h refl
    ∙ ap (parse_lines behind) (parse-end_data (with_data entries in_data))
    ∙ ap (parse_lines (instruction_lines code ++ end_instructions ∷ []))
        (parse-begin_instructions (with_data entries cleared))
    ∙ parse_lines-instruction_lines code in_instructions (end_instructions ∷ []) k refl refl
    ∙ parse-end_instructions (record in_instructions {
      instructions = map (λ e. instruction e.1) code;
      instruction_map = installed code (λ _. none);
    })
  where
    in_data : Parser
    in_data = record cleared { parsing_data_section = true }

    in_instructions : Parser
    in_instructions = record cleared { data_segment = entries; parsing_instruction_section = true }

    behind : List CString
    behind = begin_instructions ∷ (instruction_lines code ++ end_instructions ∷ [])
