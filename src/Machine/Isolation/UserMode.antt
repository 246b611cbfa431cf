-- ===== src/Machine/Isolation/UserMode.antt =====
-- A call of execute in user mode.
use homeworks.Prelude.{
  ℕ, ◌+◌, ◌*◌, ◌<◌, ◌≡◌, ◌≢◌, refl, sym, ◌∙◌, subst, false, arith, Option, none, some, if_cases,
  inl, inr, ◌⊎◌,
}
use homeworks.Machine.{
  InstructionType, syscall, Instruction, Cpu, Outcome, returns, throws, undefined, after, ◌>>=◌,
}
use homeworks.Machine.Execute.{
  handler, dispatch, count_address, count_thread, run_at, run_instruction, execute,
}
use homeworks.Machine.Laws.{read-bind}
use homeworks.Machine.Isolation.{IsKept, InUserMode}
use homeworks.Machine.Isolation.Handlers.{dispatch-Isolates}
use homeworks.Machine.Isolation.Steps.{
  Any, IsSyscall, IsOther, execute_syscall-IsKept, run_at-IsKept, count_thread-Isolates,
  count_thread-fields, count_address-lem,
}

InstructionType-discrete : Discrete InstructionType
InstructionType-discrete = hlevel

module _ (x thread : ℕ) (v : IsOther x thread) where
  -- The cell x is as before, and the CPU in user mode unless the instruction o was a SYSCALL.
  abbrev IsKeptBut : Option Instruction → Cpu → Cpu → Type 0
  IsKeptBut o c d = (d.memory.cells x ≡ c.memory.cells x) × ((d.kernel_mode ≡ false) ⊎ IsSyscall o)

  run_at_cases :
      (pc : ℕ) (o : Option Instruction) (c : Cpu)
      → 22 < c.memory.size
      → c.memory.cells 22 ≡ thread
      → c.kernel_mode ≡ false
      → IsKeptBut o c (run_at pc o c).1
  unfolding handler
  run_at_cases pc none c h e u = unfold run_at in (refl, inl u)
  run_at_cases pc (some i) c h e u = elim (InstructionType-discrete i.type syscall) [
    | yes s ↦
        let k = run_at-IsKept x Any pc i c (omega (arith, v.above)) (
          subst (λ t. IsKept x Any c (dispatch t i.syscall_type i.operands c).1) (sym s)
            (unfold dispatch in
              execute_syscall-IsKept x thread v i.syscall_type i.operands c h e)) in
        (k.0, inr s)
    | no n ↦
        let k =
          run_at-IsKept x InUserMode pc i c (omega (arith, v.above))
            ((dispatch-Isolates x v.above v.below i.type i.syscall_type i.operands n).keeps c u) in
        (k.0, inl k.1)
  ]

  run_instruction_cases :
      (pc : ℕ) (c : Cpu)
      → 22 < c.memory.size
      → c.memory.cells 22 ≡ thread
      → c.kernel_mode ≡ false
      → IsKeptBut (c.instructions pc) c (run_instruction pc c).1
  unfolding run_instruction
  run_instruction_cases pc c h e u =
      if_cases (λ (out : Outcome (Unit {0}) × Cpu). IsKeptBut (c.instructions pc) c out.1) c.halted
        (λ _. (refl, inl u)) (λ _. run_at_cases pc (c.instructions pc) c h e u)

  -- The count of the thread's instructions, and then the instruction.
  counted :
      (pc : ℕ) (c : Cpu)
      → 22 < c.memory.size
      → c.memory.cells 22 ≡ thread
      → c.kernel_mode ≡ false
      → IsKeptBut (c.instructions pc) c ((count_thread pc thread >>= λ _. run_instruction pc) c).1
  counted pc c h e u = by_outcome (count_thread pc thread c).0
    where
      d : Cpu
      d = (count_thread pc thread c).1

      off : (y : ℕ) → 500 + thread * 10 + 2 ≢ y → count_address thread ≢ y
      off y n f = n (sym (count_address-lem thread v.thread_below) ∙ f)

      same : IsKept x InUserMode c d
      same = (count_thread-Isolates x InUserMode pc thread (off x v.not_count)).keeps c u

      at_22 : d.memory.cells 22 ≡ c.memory.cells 22
      at_22 = ((count_thread-Isolates 22 Any pc thread (off 22 (λ f. omega arith))).keeps c tt).0

      fields : (d.instructions ≡ c.instructions) × (d.memory.size ≡ c.memory.size)
      fields = count_thread-fields pc thread c

      ran : IsKeptBut (d.instructions pc) d (run_instruction pc d).1
      ran = run_instruction_cases pc d (omega (arith, fields.1)) (at_22 ∙ e) same.1

      by_outcome :
          (o : Outcome (Unit {0}))
          → IsKeptBut (c.instructions pc) c (after o (λ _. run_instruction pc) d).1
      by_outcome (returns _) = (
        ran.0 ∙ same.0,
        subst (λ p. ((run_instruction pc d).1.kernel_mode ≡ false) ⊎ IsSyscall (p pc)) fields.0
            ran.1,
      )
      by_outcome throws = (same.0, inl same.1)
      by_outcome undefined = (same.0, inl same.1)

-- A call of execute in user mode, whatever the program: of the cells 21 to 999, where the operating
-- system keeps its variables and its thread table, it changes none but the start time, the count
-- and the state of the current thread, and the CPU stays in user mode unless the instruction is a
-- SYSCALL.
pub execute-InUserMode :
    (c : Cpu) (x : ℕ)
    → 22 < c.memory.size
    → c.kernel_mode ≡ false
    → IsOther x (c.memory.cells 22)
    → ((execute c).1.memory.cells x ≡ c.memory.cells x)
      × (((execute c).1.kernel_mode ≡ false) ⊎ IsSyscall (c.instructions (c.memory.cells 0)))
unfolding execute
execute-InUserMode c x h u v =
    subst
      (λ (out : Outcome (Unit {0}) × Cpu).
        IsKeptBut x (c.memory.cells 22) v (c.instructions (c.memory.cells 0)) c out.1)
      (sym (read-bind 0 _ c (omega arith) ∙ read-bind 22 _ c h))
      (counted x (c.memory.cells 22) v (c.memory.cells 0) c h refl u)
