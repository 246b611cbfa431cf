-- ===== src/Machine/Stack.antt =====
-- CALL and RET, PUSH and POP: the stack discipline.
use homeworks.Prelude.{ℕ, ◌-◌, ◌^◌, ◌≤◌, ◌<◌, ◌≡◌, ap, ◌∙◌, Bool, true, arith, [], ◌∷◌}
use homeworks.Machine.{
  Memory, Cpu, returns, read, write, checked, is_address_valid, word_add, word_sub, ◌>>=◌, ◌>>◌,
}
use homeworks.Machine.Instructions.{execute_call, execute_ret}
use homeworks.Machine.Laws.{written, read-bind, write-bind, write-written, checked-valid}

-- The slot below the stack pointer can be used: it lies in the memory, above the registers, and
-- the mode of the CPU allows it.
pub record HasSlot (c : Cpu) : Type 0 where
  pub above : 4 < c.memory.cells 1
  pub inside : c.memory.cells 1 ≤ c.memory.size
  pub addressable : c.memory.size < 2 ^ 63
  pub valid : is_address_valid c.memory (c.memory.cells 1 - 1) c.kernel_mode ≡ true

word_sub_one : (a : ℕ) → 0 < a → a < 2 ^ 63 → word_sub a 1 ≡ a - 1
word_sub_one a h l = omega arith

word_add_one : (a : ℕ) → 0 < a → a < 2 ^ 63 → word_add (a - 1) 1 ≡ a
word_add_one a h l = omega arith

-- The state after CALL.
abbrev pub called : ℕ → Cpu → Cpu
called jump c =
    let slot = c.memory.cells 1 - 1 in
    written 0 jump (written 1 slot (written slot (word_add (c.memory.cells 0) 1) c))

execute_call-called :
    (jump : ℕ) (c : Cpu) → HasSlot c → execute_call jump c ≡ (returns tt, called jump c)
unfolding execute_call
execute_call-called jump c v =
    let slot = c.memory.cells 1 - 1 in
    let e =
      word_sub_one (c.memory.cells 1) (omega (arith, v.above))
        (omega (arith, v.inside, v.addressable)) in
    let back = word_add (c.memory.cells 0) 1 in
    let store = λ (k : ℕ). write k back >> (write 1 k >> write 0 jump) in
    read-bind 0 _ c (omega (arith, v.above, v.inside))
    ∙ read-bind 1 _ c (omega (arith, v.above, v.inside))
    ∙ ap (λ (k : ℕ). checked (k ∷ []) (store k) c) e
    ∙ checked-valid slot (store slot) c v.valid
    ∙ write-bind slot back (write 1 slot >> write 0 jump) c (omega (arith, v.above, v.inside))
    ∙ write-bind 1 slot (write 0 jump) (written slot back c) (omega (arith, v.above, v.inside))
    ∙ write-written 0 jump (written 1 slot (written slot back c)) (omega (arith, v.above, v.inside))

-- The state after RET.
abbrev pub returned : Cpu → Cpu
returned c =
    let sp = c.memory.cells 1 in written 1 (word_add sp 1) (written 0 (c.memory.cells sp) c)

execute_ret-returned :
    (c : Cpu)
    → 1 < c.memory.size
    → c.memory.cells 1 < c.memory.size
    → is_address_valid c.memory (c.memory.cells 1) c.kernel_mode ≡ true
    → execute_ret c ≡ (returns tt, returned c)
unfolding execute_ret
execute_ret-returned c h l v =
    let sp = c.memory.cells 1 in
    let rest = λ (back : ℕ). write 0 back >> write 1 (word_add sp 1) in
    read-bind 1 _ c h
    ∙ checked-valid sp (read sp >>= rest) c v
    ∙ read-bind sp rest c l
    ∙ write-bind 0 (c.memory.cells sp) (write 1 (word_add sp 1)) c (omega arith)
    ∙ write-written 1 (word_add sp 1) (written 0 (c.memory.cells sp) c) h

called-slot :
    (jump : ℕ) (c : Cpu)
    → 4 < c.memory.cells 1
    → (called jump c).memory.cells (c.memory.cells 1 - 1) ≡ word_add (c.memory.cells 0) 1
called-slot jump c h = ground arith

valid-same :
    (m n : Memory) (a b : ℕ) (p q : Bool)
    → n.size ≡ m.size
    → b ≡ a
    → q ≡ p
    → is_address_valid m a p ≡ true
    → is_address_valid n b q ≡ true
valid-same m n a b p q e f g h = ground arith

-- A subroutine that is called with a free slot on the stack, and that comes to its RET with the
-- stack pointer and the return address as CALL left them, returns to the instruction behind the
-- CALL with the stack pointer of the caller.
pub execute_ret-execute_call :
    (jump : ℕ) (c d : Cpu)
    → HasSlot c
    → d.memory.size ≡ c.memory.size
    → d.kernel_mode ≡ c.kernel_mode
    → d.memory.cells 1 ≡ (execute_call jump c).1.memory.cells 1
    → d.memory.cells (c.memory.cells 1 - 1)
      ≡ (execute_call jump c).1.memory.cells (c.memory.cells 1 - 1)
    → ((execute_call jump c).1.memory.cells 0 ≡ jump)
      × ((execute_ret d).0 ≡ returns tt)
      × ((execute_ret d).1.memory.cells 0 ≡ word_add (c.memory.cells 0) 1)
      × ((execute_ret d).1.memory.cells 1 ≡ c.memory.cells 1)
execute_ret-execute_call jump c d v size mode top slot =
    let free = c.memory.cells 1 - 1 in
    let call = execute_call-called jump c v in
    let at_top : d.memory.cells 1 ≡ free = top ∙ ap (λ out. out.1.memory.cells 1) call in
    let at_slot : d.memory.cells free ≡ word_add (c.memory.cells 0) 1 =
      slot ∙ ap (λ out. out.1.memory.cells free) call ∙ called-slot jump c v.above in
    let ret =
      execute_ret-returned d (omega (arith, v.above, v.inside)) (omega (arith, v.above, v.inside)) (
        valid-same c.memory d.memory free (d.memory.cells 1) c.kernel_mode d.kernel_mode size at_top
          mode v.valid) in
    (
      ap (λ out. out.1.memory.cells 0) call,
      ap (λ out. out.0) ret,
      ap (λ out. out.1.memory.cells 0) ret ∙ ap d.memory.cells at_top ∙ at_slot,
      ap (λ out. out.1.memory.cells 1) ret
          ∙ ap (λ (n : ℕ). word_add n 1) at_top
          ∙ word_add_one (c.memory.cells 1) (omega (arith, v.above))
              (omega (arith, v.inside, v.addressable)),
    )
