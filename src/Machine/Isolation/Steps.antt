-- ===== src/Machine/Isolation/Steps.antt =====
-- A call of execute in user mode, and runs of such calls.
use homeworks.Prelude.{
  ℕ, ◌+◌, ◌<◌, ◌≡◌, ◌≢◌, refl, sym, ◌∙◌, subst, Bool, true, false, List, [], ◌∷◌, arith, Option,
  none, some, ◌==◌, ◌*◌, ◌^◌, ltb, if◌then◌else◌, if_cases, Bool-cases, inl, inr,
}
use homeworks.Machine.{
  syscall, prn, yield, SyscallType, Instruction, Cpu, M, Outcome, returns, throws, undefined, pure,
  read, write, word_add, through_int,
}
use homeworks.Machine.Instructions.{
  thread_cell, execute_prn, print_for, execute_syscall, jump_to_kernel, first_operand, print,
}
use homeworks.Machine.Execute.{
  handler, guarded, count_address, in_thread, count_thread, advance, run_at,
}
use homeworks.Machine.Laws.{read-bind}
use homeworks.Machine.Isolation.{
  Isolates, IsKept, bind-Isolates, pure-Isolates, set_mode-Isolates, read-Isolates, write-Isolates,
  if-Isolates, after-IsKept,
}

module _ (x : ℕ) (P : Bool → Type 0) where
  by_outcome :
      (o : Outcome (Unit {0})) (c d : Cpu)
      → IsKept x P c d
      → IsKept x P c (guarded (λ _. (o, d)) c).1
  unfolding guarded
  by_outcome (returns _) c d k = k
  by_outcome throws c d k = k
  by_outcome undefined c d k = k

  guarded-IsKept :
      (m : M (Unit {0})) (c : Cpu) → IsKept x P c (m c).1 → IsKept x P c (guarded m c).1
  unfolding guarded
  guarded-IsKept m c k = by_outcome (m c).0 c (m c).1 k

  advance-Isolates : (pc : ℕ) → 3 < x → Isolates x P (advance pc)
  unfolding advance
  advance-Isolates pc h = bind-Isolates x P (read-Isolates x P 3) (λ n.
      bind-Isolates x P (write-Isolates x P 3 (word_add n 1) (λ e. omega arith)) (λ _.
        bind-Isolates x P (read-Isolates x P 0) (λ now.
          if-Isolates x P (pc == now) (write-Isolates x P 0 (word_add pc 1) (λ e. omega arith))
            (pure-Isolates x P tt))))

  pub count_thread-Isolates :
      (pc thread : ℕ) → count_address thread ≢ x → Isolates x P (count_thread pc thread)
  unfolding count_thread
  count_thread-Isolates pc thread off =
      if-Isolates x P (in_thread pc thread)
        (bind-Isolates x P (read-Isolates x P (count_address thread))
          (λ n. write-Isolates x P (count_address thread) (word_add n 1) off))
        (pure-Isolates x P tt)

  pub run_at-IsKept :
      (pc : ℕ) (i : Instruction) (c : Cpu)
      → 3 < x
      → IsKept x P c (handler i c).1
      → IsKept x P c (run_at pc (some i) c).1
  unfolding run_at
  run_at-IsKept pc i c lo h =
      after-IsKept x P (guarded (handler i) c).0
        (λ went_well. if went_well then advance pc else pure tt) c (guarded (handler i) c).1
        (λ went_well.
          (if-Isolates x P went_well (advance-Isolates pc lo) (pure-Isolates x P tt)).keeps
            (guarded (handler i) c).1 (guarded-IsKept (handler i) c h).1)
        (guarded-IsKept (handler i) c h)

  first_operand-Isolates : (operands : List ℕ) → Isolates x P (first_operand operands)
  first_operand-Isolates [] = record { keeps = λ c u. (refl, u) }
  first_operand-Isolates (a ∷ rest) = record { keeps = λ c u. (refl, u) }

  print_for-Isolates :
      (thread : ℕ) (operands : List ℕ)
      → 3 < x
      → thread_cell thread 1 ≢ x
      → thread_cell thread 3 ≢ x
      → P false
      → Isolates x P (print_for thread operands)
  unfolding print_for
  print_for-Isolates thread operands lo off1 off3 u =
      bind-Isolates x P (write-Isolates x P (thread_cell thread 3) 2 off3) (λ _.
        bind-Isolates x P (read-Isolates x P 3) (λ count.
          bind-Isolates x P (write-Isolates x P (thread_cell thread 1) count off1) (λ _.
            bind-Isolates x P (read-Isolates x P 0) (λ pc.
              bind-Isolates x P (write-Isolates x P 0 (word_add pc 1) (λ e. omega arith)) (λ _.
                bind-Isolates x P (first_operand-Isolates operands) (λ address.
                  bind-Isolates x P (read-Isolates x P address) (λ value.
                    bind-Isolates x P {m = print (through_int thread) address value}
                      (record { keeps = λ c v. (refl, v) })
                      (λ _. set_mode-Isolates x P false u))))))))

  jump_to_kernel-Isolates : (target : ℕ) → 4 < x → Isolates x P (jump_to_kernel target)
  unfolding jump_to_kernel
  jump_to_kernel-Isolates target lo = bind-Isolates x P (read-Isolates x P 0) (λ pc.
      bind-Isolates x P (write-Isolates x P 4 (word_add pc 1) (λ e. omega arith))
        (λ _. write-Isolates x P 0 target (λ e. omega arith)))

write-fields :
    (a v : ℕ) (c : Cpu)
    → let d = (write a v c).1 in (d.instructions ≡ c.instructions) × (d.memory.size ≡ c.memory.size)
unfolding write
write-fields a v c =
    if_cases
      (λ (out : Outcome (Unit {0}) × Cpu).
        (out.1.instructions ≡ c.instructions) × (out.1.memory.size ≡ c.memory.size))
      (ltb a c.memory.size) (λ _. (refl, refl)) (λ _. (refl, refl))

-- Counting changes the memory only.
pub count_thread-fields :
    (pc thread : ℕ) (c : Cpu)
    → let d = (count_thread pc thread c).1 in
      (d.instructions ≡ c.instructions) × (d.memory.size ≡ c.memory.size)
unfolding count_thread read
count_thread-fields pc thread c =
    if_cases
      (λ (m : M (Unit {0})).
        ((m c).1.instructions ≡ c.instructions) × ((m c).1.memory.size ≡ c.memory.size))
      (in_thread pc thread)
      (λ _. elim (Bool-cases (ltb (count_address thread) c.memory.size)) [
        | inl e ↦ rw e (write-fields (count_address thread) _ c)
        | inr e ↦ rw e (refl, refl)
      ])
      (λ _. (refl, refl))

abbrev pub IsSyscall : Option Instruction → Type 0
IsSyscall none = ⊥
IsSyscall (some i) = i.type ≡ syscall

-- No cell of the thread's entry that a call of execute writes: the time, the count, the state.
pub record IsOther (x thread : ℕ) : Type 0 where
  pub above : 20 < x
  pub below : x < 1000
  pub thread_below : thread < 50
  pub not_time : 500 + thread * 10 + 1 ≢ x
  pub not_count : 500 + thread * 10 + 2 ≢ x
  pub not_state : 500 + thread * 10 + 3 ≢ x

abbrev pub Any : Bool → Type 0
Any b = Unit {0}

through_int_small : (a : ℕ) → a < 2 ^ 31 → through_int a ≡ a
through_int_small a h = ground arith

thread_cell-lem :
    (thread k : ℕ) → thread < 50 → k < 10 → thread_cell thread k ≡ 500 + thread * 10 + k
thread_cell-lem thread k h l =
    rw
      (
        through_int_small thread (omega arith),
        through_int_small (500 + thread * 10) (omega arith),
        through_int_small (500 + thread * 10 + k) (omega arith),
      )
      refl

pub count_address-lem : (thread : ℕ) → thread < 50 → count_address thread ≡ 500 + thread * 10 + 2
count_address-lem thread h = omega arith

module _ (x thread : ℕ) (v : IsOther x thread) where
  pub execute_syscall-IsKept :
      (kind : Option SyscallType) (operands : List ℕ) (c : Cpu)
      → 22 < c.memory.size
      → c.memory.cells 22 ≡ thread
      → IsKept x Any c (execute_syscall kind operands c).1
  unfolding execute_syscall execute_prn
  execute_syscall-IsKept none operands c h e = (refl, tt)
  execute_syscall-IsKept (some SyscallType.hlt) operands c h e =
      (jump_to_kernel-Isolates x Any 430 (omega (arith, v.above))).keeps
        (record c { kernel_mode = true }) tt
  execute_syscall-IsKept (some yield) operands c h e =
      (jump_to_kernel-Isolates x Any 400 (omega (arith, v.above))).keeps
        (record c { kernel_mode = true }) tt
  execute_syscall-IsKept (some prn) operands c h e =
      subst (λ (out : Outcome (Unit {0}) × Cpu). IsKept x Any c out.1)
        (sym (read-bind 22 (λ t. print_for t operands) (record c { kernel_mode = true }) h))
        (subst (λ t. IsKept x Any c (print_for t operands (record c { kernel_mode = true })).1)
          (sym e)
          ((print_for-Isolates x Any thread operands (omega (arith, v.above))
              (λ f. v.not_time (sym (thread_cell-lem thread 1 v.thread_below (omega arith)) ∙ f))
              (λ f. v.not_state (sym (thread_cell-lem thread 3 v.thread_below (omega arith)) ∙ f))
              tt).keeps
            (record c { kernel_mode = true }) tt))
