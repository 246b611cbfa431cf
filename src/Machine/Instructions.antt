-- ===== src/Machine/Instructions.antt =====
-- cpu.cpp: the handlers of the instructions. No debug callback is set.
use homeworks.Prelude.{ℕ, ◌+◌, ◌*◌, true, false, Option, none, some, List, [], ◌∷◌, if◌then◌else◌}
use homeworks.Machine.{
  SyscallType, prn, yield, M, returns, undefined, pure, throw, read, write, halt, set_mode, checked,
  checked_in, word_add, word_sub, word_le, through_int, ◌>>=◌, ◌>>◌,
}

-- `PC`, `SP`, `SYSCALL_RESULT`, `INSTR_COUNT`
abbrev pub pc_register : ℕ
pc_register = 0

abbrev pub sp_register : ℕ
sp_register = 1

abbrev pub syscall_result : ℕ
syscall_result = 2

abbrev pub instr_count : ℕ
instr_count = 3

-- The check of the number of operands, which throws.
abbrev pub one_operand : List ℕ → (ℕ → M (Unit {0})) → M (Unit {0})
one_operand (a ∷ []) f = f a
one_operand [] f = throw
one_operand (a ∷ b ∷ rest) f = throw

abbrev pub two_operands : List ℕ → (ℕ → ℕ → M (Unit {0})) → M (Unit {0})
two_operands (a ∷ b ∷ []) f = f a b
two_operands [] f = throw
two_operands (a ∷ []) f = throw
two_operands (a ∷ b ∷ c ∷ rest) f = throw

unfoldable pub execute_set : ℕ → ℕ → M (Unit {0})
unfolding checked write
execute_set value address = checked (address ∷ []) (write address value)

unfoldable pub execute_cpy : ℕ → ℕ → M (Unit {0})
unfolding checked read write
execute_cpy src dest = checked (src ∷ dest ∷ []) (do value ← read src; write dest value)

unfoldable pub execute_cpyi : ℕ → ℕ → M (Unit {0})
unfolding checked read write
execute_cpyi indirect dest =
    checked (indirect ∷ dest ∷ [])
      (do src ← read indirect; checked (src ∷ []) (do value ← read src; write dest value))

unfoldable pub execute_cpyi2 : ℕ → ℕ → M (Unit {0})
unfolding checked read write
execute_cpyi2 a1 a2 = checked (a1 ∷ a2 ∷ []) (do
  src ← read a1
  dest ← read a2
  checked (src ∷ dest ∷ []) (do value ← read src; write dest value))

unfoldable pub execute_add : ℕ → ℕ → M (Unit {0})
unfolding checked read write
execute_add address value =
    checked (address ∷ []) (do current ← read address; write address (word_add current value))

unfoldable pub execute_addi : ℕ → ℕ → M (Unit {0})
unfolding checked read write
execute_addi dest src =
    checked (dest ∷ src ∷ [])
      (do value ← read src; current ← read dest; write dest (word_add current value))

unfoldable pub execute_subi : ℕ → ℕ → M (Unit {0})
unfolding checked read write
execute_subi src dest =
    checked (src ∷ dest ∷ [])
      (do src_value ← read src; dest_value ← read dest; write dest (word_sub src_value dest_value))

unfoldable pub execute_jif : ℕ → ℕ → M (Unit {0})
unfolding checked read write
execute_jif address jump =
    checked (address ∷ [])
      (do value ← read address; if word_le value 0 then write pc_register jump else pure tt)

unfoldable pub execute_push : ℕ → M (Unit {0})
unfolding checked read write
execute_push address = checked (address ∷ []) (do
  value ← read address
  sp ← read sp_register
  checked (word_sub sp 1 ∷ []) (do write (word_sub sp 1) value; write sp_register (word_sub sp 1)))

unfoldable pub execute_pop : ℕ → M (Unit {0})
unfolding checked read write
execute_pop address = checked (address ∷ []) (do
  sp ← read sp_register
  checked (sp ∷ []) (do value ← read sp; write address value; write sp_register (word_add sp 1)))

unfoldable pub execute_call : ℕ → M (Unit {0})
unfolding checked read write
execute_call jump = do
  pc ← read pc_register
  sp ← read sp_register
  checked (word_sub sp 1 ∷ []) (do
    write (word_sub sp 1) (word_add pc 1)
    write sp_register (word_sub sp 1)
    write pc_register jump)

unfoldable pub execute_ret : M (Unit {0})
unfolding checked read write
execute_ret = do
  sp ← read sp_register
  checked (sp ∷ []) (do
    return_address ← read sp
    write pc_register return_address
    write sp_register (word_add sp 1))

unfoldable pub execute_hlt : M (Unit {0})
execute_hlt = halt

unfoldable pub execute_user : List ℕ → M (Unit {0})
unfolding checked_in read write
execute_user [] = set_mode false
execute_user (a ∷ []) = do
  set_mode false
  checked_in true (a ∷ []) (do jump ← read a; checked_in false (jump ∷ []) (write pc_register jump))
execute_user (a ∷ b ∷ rest) = set_mode false

-- The cells of a thread in the thread table, whose number an `int` holds.
abbrev pub thread_cell : ℕ → ℕ → ℕ
thread_cell thread offset = through_int (through_int (500 + through_int thread * 10) + offset)

abbrev pub current_thread : ℕ
current_thread = 22

-- A read of an uninitialised value.
abbrev pub give_up : M (Unit {0})
give_up c = (undefined, c)

-- `std::cout << ...`
abbrev pub print : ℕ → ℕ → ℕ → M (Unit {0})
print thread address value c =
    (returns tt, record c { output = (thread, address, value) ∷ c.output })

-- `instr.operands[0]`
abbrev pub first_operand : List ℕ → M ℕ
first_operand [] c = (undefined, c)
first_operand (a ∷ rest) c = (returns a, c)

-- PRN reads its operand with no check: with none the behaviour is undefined.
unfoldable pub print_for : ℕ → List ℕ → M (Unit {0})
unfolding read write
print_for thread operands = do
  write (thread_cell thread 3) 2
  count ← read instr_count
  write (thread_cell thread 1) count
  pc ← read pc_register
  write pc_register (word_add pc 1)
  address ← first_operand operands
  value ← read address
  print (through_int thread) address value
  set_mode false

unfoldable pub execute_prn : List ℕ → M (Unit {0})
unfolding print_for
execute_prn operands = do thread ← read current_thread; print_for thread operands

-- Where the other two leave the address behind the instruction, and where they jump.
unfoldable pub jump_to_kernel : ℕ → M (Unit {0})
unfolding read write
jump_to_kernel target = do pc ← read pc_register; write 4 (word_add pc 1); write pc_register target

unfoldable pub execute_syscall : Option SyscallType → List ℕ → M (Unit {0})
unfolding execute_prn jump_to_kernel
execute_syscall none operands = do set_mode true; give_up
execute_syscall (some prn) operands = do set_mode true; execute_prn operands
execute_syscall (some SyscallType.hlt) operands = do set_mode true; jump_to_kernel 430
execute_syscall (some yield) operands = do set_mode true; jump_to_kernel 400
