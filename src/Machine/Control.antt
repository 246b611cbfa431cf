-- ===== src/Machine/Control.antt =====
-- Control flow: the next address, calls and returns, jumps to the own address, the main loop.
use homeworks.Prelude.{
  ℕ, zero, suc, [], ◌∷◌, ◌+◌, ◌≤◌, ◌<◌, ◌≡◌, refl, ap, ◌∙◌, Bool, true, arith, Option, some, ltb,
  ◌==◌, ==_self, if◌then◌else◌, if_cases, inl, inr, ◌⊎◌,
}
use homeworks.Machine.{
  SyscallType, jif, Instruction, Cpu, M, Outcome, returns, throws, undefined, read, write, pure,
  after, is_address_valid, word_add, word_le, ◌>>=◌,
}
use homeworks.Machine.Instructions.{execute_jif}
use homeworks.Machine.Laws.{written, read-bind, write-bind, write-written, checked-valid}
use homeworks.Machine.Execute.{
  advance, run_at, handler, dispatch, guarded, execute, main_loop, after_cycle, Ending,
}

-- The loop ended: with the CPU halted, at the limit of the cycles, or by an exception or undefined
-- behaviour that `execute` lets through.
abbrev pub HasEnded : Ending → Type 0
HasEnded (cycles, o, c) =
    (cycles ≤ 100001) × ((c.halted ≡ true) ⊎ ((cycles ≡ 100001) ⊎ ((o ≡ throws) ⊎ (o ≡ undefined))))

abbrev Ends : Option Ending → Type 0
Ends r = (out : Ending) × (r ≡ some out) × HasEnded out

after_cycle-HasEnded :
    (o : Outcome (Unit {0})) (cycles : ℕ) (c : Cpu) (rest : Option Ending)
    → cycles < 100001
    → (cycles + 1 < 100001 → Ends rest)
    → Ends (after_cycle o cycles c rest)
unfolding after_cycle
after_cycle-HasEnded throws cycles c rest l h =
    ((cycles, throws, c), refl, (omega arith, inr (inr (inl refl))))
after_cycle-HasEnded undefined cycles c rest l h =
    ((cycles, undefined, c), refl, (omega arith, inr (inr (inr refl))))
after_cycle-HasEnded (returns u) cycles c rest l h =
    if_cases Ends c.halted (λ e. ((cycles, returns tt, c), refl, (omega arith, inl e)))
      (λ _.
        if_cases Ends (ltb 100000 (cycles + 1))
          (λ f. ((cycles + 1, returns tt, c), refl, (omega arith, inr (inl (ground arith)))))
          (λ f. h (ground arith)))

main_loop-some :
    (fuel cycles : ℕ) (c : Cpu)
    → cycles < 100001
    → 100001 ≤ fuel + cycles
    → Ends (main_loop fuel cycles c)
unfolding main_loop
main_loop-some zero cycles c l h = absurd (omega arith)
main_loop-some (suc fuel) cycles c l h =
    if_cases Ends c.halted (λ e. ((cycles, returns tt, c), refl, (omega arith, inl e)))
      (λ _.
        after_cycle-HasEnded (execute c).0 cycles (execute c).1
          (main_loop fuel (cycles + 1) (execute c).1) l
          (λ m. main_loop-some fuel (cycles + 1) (execute c).1 m (omega arith)))

-- The main loop ends within 100001 calls of `execute`, whatever the program: the CPU has halted, or
-- the limit of the cycles is reached, or a call ended by an exception that is not caught or in
-- undefined behaviour.
pub main_loop-HasEnded :
    (fuel : ℕ) (c : Cpu)
    → 100001 ≤ fuel
    → (out : Ending) × (main_loop fuel 0 c ≡ some out) × HasEnded out
main_loop-HasEnded fuel c h = main_loop-some fuel 0 c (omega arith) (omega arith)

execute_jif-taken :
    (a jump : ℕ) (c : Cpu)
    → a < c.memory.size
    → is_address_valid c.memory a c.kernel_mode ≡ true
    → word_le (c.memory.cells a) 0 ≡ true
    → execute_jif a jump c ≡ (returns tt, written 0 jump c)
unfolding execute_jif
execute_jif-taken a jump c h v t =
    let go = λ (value : ℕ). if word_le value 0 then write 0 jump else pure tt in
    checked-valid a (read a >>= go) c v
    ∙ read-bind a go c h
    ∙ ap (λ (b : Bool). (if b then write 0 jump else pure tt) c) t
    ∙ write-written 0 jump c (omega arith)

-- After an instruction that leaves the PC at its own address, the PC moves on.
advance-same :
    (pc : ℕ) (c : Cpu)
    → 3 < c.memory.size
    → c.memory.cells 0 ≡ pc
    → (advance pc c).1.memory.cells 0 ≡ word_add pc 1
unfolding advance
advance-same pc c h e =
    let counted = word_add (c.memory.cells 3) 1 in
    let d = written 3 counted c in
    let go = λ (now : ℕ). if pc == now then write 0 (word_add pc 1) else pure tt in
    ap (λ out. out.1.memory.cells 0)
      (read-bind 3 _ c h
        ∙ write-bind 3 counted (read 0 >>= go) c h
        ∙ read-bind 0 go d (omega arith)
        ∙ ap (λ (n : ℕ). (if pc == n then write 0 (word_add pc 1) else pure tt) d) e
        ∙ ap (λ (b : Bool). (if b then write 0 (word_add pc 1) else pure tt) d) (==_self pc)
        ∙ write-written 0 (word_add pc 1) d (omega arith))

guarded-returns :
    (m : M (Unit {0})) (c d : Cpu) → m c ≡ (returns tt, d) → guarded m c ≡ (returns true, d)
unfolding guarded
guarded-returns m c d h =
    rw (ap (λ (out : Outcome (Unit {0}) × Cpu). out.0) h, guarded)
      (ap (λ (out : Outcome (Unit {0}) × Cpu). (returns true, out.1)) h)

-- Where the handler returns, the PC is looked at next.
pub run_at-returns :
    (pc : ℕ) (i : Instruction) (c d : Cpu)
    → handler i c ≡ (returns tt, d)
    → run_at pc (some i) c ≡ advance pc d
unfolding run_at
run_at-returns pc i c d h =
    ap (λ (out : Outcome Bool × Cpu). after out.0 (λ w. if w then advance pc else pure tt) out.1)
      (guarded-returns (handler i) c d h)

-- A JIF that jumps to its own address, with its condition met, does not loop: the program goes on
-- with the instruction behind it.
pub run_at-jif :
    (a : ℕ) (kind : Option SyscallType) (c : Cpu)
    → 3 < c.memory.size
    → a < c.memory.size
    → is_address_valid c.memory a c.kernel_mode ≡ true
    → word_le (c.memory.cells a) 0 ≡ true
    → (run_at
          (c.memory.cells 0)
          (some (record { type = jif; syscall_type = kind; operands = a ∷ c.memory.cells 0 ∷ [] }))
          c).1.memory.cells
        0
      ≡ word_add (c.memory.cells 0) 1
unfolding handler dispatch
run_at-jif a kind c h l v t =
    let pc = c.memory.cells 0 in
    ap (λ out. out.1.memory.cells 0)
      (run_at-returns pc _ c (written 0 pc c) (execute_jif-taken a pc c l v t))
    ∙ advance-same pc (written 0 pc c) h refl
