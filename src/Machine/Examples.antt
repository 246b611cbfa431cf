-- ===== src/Machine/Examples.antt =====
-- Small programs on the CPU.
use homeworks.Prelude.{
  ℕ, ◌-◌, ◌^◌, ◌⊎◌, arith, ◌≡◌, refl, false, Option, none, some, List, [], ◌∷◌, ◌==◌, if◌then◌else◌,
}
use homeworks.Machine.{
  InstructionType, set, add, jif, hlt, Instruction, Cpu, returns, read, write, checked, checked_in,
}
use homeworks.Machine.Instructions.{
  execute_set, execute_add, execute_jif, execute_call, execute_ret, execute_hlt,
}
use homeworks.Machine.Stack.{HasSlot, called, execute_ret-execute_call}
use homeworks.Machine.Control.{HasEnded, main_loop-HasEnded}
use homeworks.Machine.Isolation.Steps.{IsSyscall}
use homeworks.Machine.Isolation.UserMode.{execute-InUserMode}
use homeworks.Machine.Parser.{shape, parse_file}
use homeworks.Machine.Parser.Print.{binary, nullary, print_call, instruction}
use homeworks.Machine.Parser.File.{print_file, installed, parse_file-print_file}
use homeworks.Machine.Execute.{
  new_cpu, execute, main_loop, handler, dispatch, guarded, advance, run_at, run_instruction,
  count_thread, Ending, after_cycle,
}

abbrev code : InstructionType → List ℕ → Option Instruction
code t ops = some (record { type = t; syscall_type = none; operands = ops })

-- Adds 5 to cell 50, jumps over one instruction, and halts.
abbrev program : ℕ → Option Instruction
program a =
    if a == 0
    then code set (3 ∷ 50 ∷ [])
    else if a == 1
    then code add (50 ∷ 5 ∷ [])
    else if a == 2
    then code jif (60 ∷ 4 ∷ [])
    else if a == 3
    then code set (0 ∷ 50 ∷ [])
    else if a == 4
    then code hlt []
    else none

abbrev loaded : Cpu
loaded = record new_cpu { instructions = program }

answer : Option Ending → ℕ
answer none = 0
answer (some (n, o, c)) = c.memory.cells 50

run : answer (main_loop 10 0 loaded) ≡ 8
unfolding answer main_loop after_cycle execute count_thread run_instruction run_at handler dispatch
    guarded advance execute_set execute_add execute_jif execute_hlt read write checked checked_in
run = refl

-- A thread of user space that works at 1000.
abbrev in_thread_1 : Cpu
in_thread_1 = record new_cpu {
  memory = record {
    cells = λ a. if a == 0 then 1000 else if a == 1 then 1100 else if a == 22 then 1 else 0;
    size = 10000;
  };
  instructions = λ a. if a == 1000 then code set (7 ∷ 500 ∷ []) else none;
  kernel_mode = false;
}

execute-InUserMode_example :
    ((execute in_thread_1).1.memory.cells 21 ≡ 0)
    × (((execute in_thread_1).1.kernel_mode ≡ false) ⊎ IsSyscall (code set (7 ∷ 500 ∷ [])))
execute-InUserMode_example = execute-InUserMode in_thread_1 21 (omega arith) refl (omega arith)

main_loop-HasEnded_example : (out : Ending) × (main_loop 100001 0 loaded ≡ some out) × HasEnded out
main_loop-HasEnded_example = main_loop-HasEnded 100001 loaded (omega arith)

-- The state in which the subroutine at 50 begins.
abbrev in_subroutine : Cpu
in_subroutine = called 50 in_thread_1

has_slot : HasSlot in_thread_1
has_slot = record {
  above = omega arith;
  inside = omega arith;
  addressable = omega arith;
  valid = refl;
}

at_call : in_subroutine.memory.cells 1 ≡ (execute_call 50 in_thread_1).1.memory.cells 1
unfolding execute_call read write checked checked_in
at_call = refl

at_slot : in_subroutine.memory.cells 1099 ≡ (execute_call 50 in_thread_1).1.memory.cells 1099
unfolding execute_call read write checked checked_in
at_slot = refl

execute_ret-execute_call_example :
    ((execute_call 50 in_thread_1).1.memory.cells 0 ≡ 50)
    × ((execute_ret in_subroutine).0 ≡ returns tt)
    × ((execute_ret in_subroutine).1.memory.cells 0 ≡ 1001)
    × ((execute_ret in_subroutine).1.memory.cells 1 ≡ 1100)
execute_ret-execute_call_example =
    execute_ret-execute_call 50 in_thread_1 in_subroutine has_slot refl refl at_call at_slot

parse_file-print_file_example :
    parse_file (
      print_file
        ((22, 1) ∷ (50, 2 ^ 64 - 5) ∷ [])
        ((0, binary set 3 50) ∷ (1, print_call 50) ∷ (2, nullary hlt) ∷ []))
    ≡ record {
      parsing_data_section = false;
      parsing_instruction_section = false;
      data_segment = (22, 1) ∷ (50, 2 ^ 64 - 5) ∷ [];
      instructions =
          instruction (binary set 3 50)
          ∷ instruction (print_call 50)
          ∷ instruction (nullary hlt)
          ∷ [];
      instruction_map =
          installed ((0, binary set 3 50) ∷ (1, print_call 50) ∷ (2, nullary hlt) ∷ []) (λ _. none);
    }
unfolding shape
parse_file-print_file_example =
    parse_file-print_file ((22, 1) ∷ (50, 2 ^ 64 - 5) ∷ [])
      ((0, binary set 3 50) ∷ (1, print_call 50) ∷ (2, nullary hlt) ∷ [])
      ((omega arith, omega arith), ((omega arith, omega arith), tt))
      (
        (omega arith, (refl, omega arith, omega arith)),
        ((omega arith, omega arith), ((omega arith, refl), tt)),
      )
