-- ===== src/Machine/Execute.antt =====
-- cpu.cpp: loadProgram, reset and execute; main.cpp: the loop over execute.
use homeworks.Prelude.{
  ℕ, zero, suc, ◌+◌, ◌*◌, ◌%◌, ◌^◌, Bool, true, false, ◌&&◌, Option, none, some, List, [], ◌∷◌, ltb,
  ◌==◌, if◌then◌else◌,
}
use homeworks.Machine.{
  InstructionType, set, cpy, cpyi, cpyi2, add, addi, subi, jif, push, pop, call, ret, hlt, user,
  syscall, SyscallType, Instruction, Cpu, M, Outcome, returns, throws, undefined, pure, read, write,
  halt, word_add, word_sub, word_le, ◌>>=◌, ◌>>◌,
}
use homeworks.Machine.Instructions.{
  pc_register, syscall_result, instr_count, current_thread, one_operand, two_operands, execute_set,
  execute_cpy, execute_cpyi, execute_cpyi2, execute_add, execute_addi, execute_subi, execute_jif,
  execute_push, execute_pop, execute_call, execute_ret, execute_hlt, execute_user, execute_syscall,
}

-- The constructor.
abbrev pub new_cpu : Cpu
new_cpu = record {
  memory = record { cells = λ _. 0; size = 10000 };
  instructions = λ _. none;
  halted = false;
  kernel_mode = true;
  output = [];
}

unfoldable pub load_data : List (ℕ × ℕ) → M (Unit {0})
unfolding write
load_data [] = pure tt
load_data ((address, value) ∷ entries) = do write address value; load_data entries

abbrev pub restart : M (Unit {0})
restart c = (returns tt, record c { halted = false; kernel_mode = true })

unfoldable pub reset : M (Unit {0})
unfolding write
reset = do restart; write syscall_result 0; write instr_count 0; write pc_register 0

abbrev pub install : (ℕ → Option Instruction) → M (Unit {0})
install instruction_map c = (returns tt, record c { instructions = instruction_map })

unfoldable pub load_program : (ℕ → Option Instruction) → List (ℕ × ℕ) → M (Unit {0})
unfolding load_data reset
load_program instruction_map entries = do install instruction_map; load_data entries; reset

-- The table of handlers.
unfoldable pub dispatch : InstructionType → Option SyscallType → List ℕ → M (Unit {0})
unfolding execute_set execute_cpy execute_cpyi execute_cpyi2 execute_add execute_addi execute_subi
    execute_jif execute_push execute_pop execute_call execute_ret execute_hlt execute_user
    execute_syscall
dispatch set kind operands = two_operands operands execute_set
dispatch cpy kind operands = two_operands operands execute_cpy
dispatch cpyi kind operands = two_operands operands execute_cpyi
dispatch cpyi2 kind operands = two_operands operands execute_cpyi2
dispatch add kind operands = two_operands operands execute_add
dispatch addi kind operands = two_operands operands execute_addi
dispatch subi kind operands = two_operands operands execute_subi
dispatch jif kind operands = two_operands operands execute_jif
dispatch push kind operands = one_operand operands execute_push
dispatch pop kind operands = one_operand operands execute_pop
dispatch call kind operands = one_operand operands execute_call
dispatch ret kind operands = execute_ret
dispatch hlt kind operands = execute_hlt
dispatch user kind operands = execute_user operands
dispatch syscall kind operands = execute_syscall kind operands

unfoldable pub handler : Instruction → M (Unit {0})
unfolding dispatch
handler i = dispatch i.type i.syscall_type i.operands

-- `catch`: an exception halts the CPU; the Boolean tells whether there was none.
unfoldable pub guarded : M (Unit {0}) → M Bool
guarded m c = elim (m c).0 [
  | returns _ ↦ (returns true, (m c).1)
  | throws ↦ (returns false, record (m c).1 { halted = true })
  | undefined ↦ (undefined, (m c).1)
]

-- The cell in which a thread's instructions are counted.
abbrev pub count_address : ℕ → ℕ
count_address thread = word_add (word_add 500 (thread * 10)) 2

abbrev pub in_thread : ℕ → ℕ → Bool
in_thread pc thread =
    word_le (thread * 1000 % 2 ^ 64) pc
    && word_le pc (word_sub (word_add thread 1 * 1000 % 2 ^ 64) 1)

unfoldable pub count_thread : ℕ → ℕ → M (Unit {0})
unfolding read write
count_thread pc thread =
    if in_thread pc thread
    then (do n ← read (count_address thread); write (count_address thread) (word_add n 1))
    else pure tt

-- After the handler: the count of instructions, and the next address if the handler left it.
unfoldable pub advance : ℕ → M (Unit {0})
unfolding read write
advance pc = do
  n ← read instr_count
  write instr_count (word_add n 1)
  now ← read pc_register
  if pc == now then write pc_register (word_add pc 1) else pure tt

unfoldable pub run_at : ℕ → Option Instruction → M (Unit {0})
unfolding handler guarded advance
run_at pc none = halt
run_at pc (some i) = do went_well ← guarded (handler i); if went_well then advance pc else pure tt

unfoldable pub run_instruction : ℕ → M (Unit {0})
unfolding run_at
run_instruction pc c = if c.halted then (returns tt, c) else run_at pc (c.instructions pc) c

unfoldable pub execute : M (Unit {0})
unfolding read count_thread run_instruction
execute = do
  pc ← read pc_register
  thread ← read current_thread
  count_thread pc thread
  run_instruction pc

-- How the loop of `main` ends: the cycles counted, the outcome of the last call, the CPU.
abbrev pub Ending : Type 0
Ending = ℕ × Outcome (Unit {0}) × Cpu

-- What the loop does after a call of `execute`; `rest` are the further rounds.
unfoldable pub after_cycle : Outcome (Unit {0}) → ℕ → Cpu → Option Ending → Option Ending
after_cycle throws cycles c rest = some (cycles, throws, c)
after_cycle undefined cycles c rest = some (cycles, undefined, c)
after_cycle (returns _) cycles c rest =
    if c.halted
    then some (cycles, returns tt, c)
    else if ltb 100000 (cycles + 1)
    then some (cycles + 1, returns tt, c)
    else rest

-- The loop of `main`, with fuel: `none` where the fuel runs out.
unfoldable pub main_loop : ℕ → ℕ → Cpu → Option Ending
unfolding execute after_cycle
main_loop zero cycles c = none
main_loop (suc fuel) cycles c =
    let rest = main_loop fuel (cycles + 1) (execute c).1 in
    let more = after_cycle (execute c).0 cycles (execute c).1 rest in
    if c.halted then some (cycles, returns tt, c) else more
