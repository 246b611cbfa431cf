-- ===== src/Machine/Isolation/Handlers.antt =====
-- Each handler but that of SYSCALL keeps the cells of the operating system.
use homeworks.Prelude.{ℕ, ◌≤◌, ◌<◌, ◌≢◌, refl, false, List, [], ◌∷◌, arith, Option}
use homeworks.Machine.{
  InstructionType, set, cpy, cpyi, cpyi2, add, addi, subi, jif, push, pop, call, ret, hlt, user,
  syscall, SyscallType, M, read, write, ◌>>=◌, word_le, word_sub, word_add,
}
use homeworks.Machine.Instructions.{
  one_operand, two_operands, execute_set, execute_cpy, execute_cpyi, execute_cpyi2, execute_add,
  execute_addi, execute_subi, execute_jif, execute_push, execute_pop, execute_call, execute_ret,
  execute_user,
}
use homeworks.Machine.Execute.{dispatch}
use homeworks.Machine.Isolation.{
  Isolates, InUserMode, bind-Isolates, pure-Isolates, throw-Isolates, halt-Isolates,
  set_mode-Isolates, read-Isolates, write-Isolates, if-Isolates, checked-Isolates,
  checked_in-Isolates, checked_true-Isolates,
}

module _ (x : ℕ) (lo : 20 < x) (hi : x < 1000) where
  reads : (a : ℕ) → Isolates x InUserMode (read a)
  reads = read-Isolates x InUserMode

  writes : (a v : ℕ) → a ≢ x → Isolates x InUserMode (write a v)
  writes = write-Isolates x InUserMode

  then_do :
      {A B : Type 0} {m : M A} {f : A → M B}
      → Isolates x InUserMode m
      → ((a : A) → Isolates x InUserMode (f a))
      → Isolates x InUserMode (m >>= f)
  then_do = bind-Isolates x InUserMode

  low : (a : ℕ) → a ≤ 20 → a ≢ x
  low a h e = omega arith

  two_operands-Isolates :
      (operands : List ℕ) (f : ℕ → ℕ → M (Unit {0}))
      → ((a b : ℕ) → Isolates x InUserMode (f a b))
      → Isolates x InUserMode (two_operands operands f)
  two_operands-Isolates [] f h = throw-Isolates x InUserMode (Unit {0})
  two_operands-Isolates (a ∷ []) f h = throw-Isolates x InUserMode (Unit {0})
  two_operands-Isolates (a ∷ b ∷ []) f h = h a b
  two_operands-Isolates (a ∷ b ∷ c ∷ rest) f h = throw-Isolates x InUserMode (Unit {0})

  one_operand-Isolates :
      (operands : List ℕ) (f : ℕ → M (Unit {0}))
      → ((a : ℕ) → Isolates x InUserMode (f a))
      → Isolates x InUserMode (one_operand operands f)
  one_operand-Isolates [] f h = throw-Isolates x InUserMode (Unit {0})
  one_operand-Isolates (a ∷ []) f h = h a
  one_operand-Isolates (a ∷ b ∷ rest) f h = throw-Isolates x InUserMode (Unit {0})

  -- A value goes from a cell to one that is not x.
  copy-Isolates :
      (src dest : ℕ) (f : ℕ → ℕ)
      → dest ≢ x
      → Isolates x InUserMode (read src >>= λ v. write dest (f v))
  copy-Isolates src dest f off = then_do (reads src) (λ v. writes dest (f v) off)

  execute_set-Isolates : (value address : ℕ) → Isolates x InUserMode (execute_set value address)
  unfolding execute_set
  execute_set-Isolates value address =
      checked-Isolates x lo hi (address ∷ []) (λ off. writes address value off.0)

  execute_cpy-Isolates : (src dest : ℕ) → Isolates x InUserMode (execute_cpy src dest)
  unfolding execute_cpy
  execute_cpy-Isolates src dest =
      checked-Isolates x lo hi (src ∷ dest ∷ []) (λ off. copy-Isolates src dest (λ v. v) off.1.0)

  execute_cpyi-Isolates : (indirect dest : ℕ) → Isolates x InUserMode (execute_cpyi indirect dest)
  unfolding execute_cpyi
  execute_cpyi-Isolates indirect dest = checked-Isolates x lo hi (indirect ∷ dest ∷ []) (λ off.
      then_do (reads indirect)
        (λ src. checked-Isolates x lo hi (src ∷ []) (λ _. copy-Isolates src dest (λ v. v) off.1.0)))

  execute_cpyi2-Isolates : (a1 a2 : ℕ) → Isolates x InUserMode (execute_cpyi2 a1 a2)
  unfolding execute_cpyi2
  execute_cpyi2-Isolates a1 a2 = checked-Isolates x lo hi (a1 ∷ a2 ∷ []) (λ _.
      then_do (reads a1) (λ src. then_do (reads a2) (λ dest.
        checked-Isolates x lo hi (src ∷ dest ∷ [])
          (λ off. copy-Isolates src dest (λ v. v) off.1.0))))

  execute_add-Isolates : (address value : ℕ) → Isolates x InUserMode (execute_add address value)
  unfolding execute_add
  execute_add-Isolates address value =
      checked-Isolates x lo hi (address ∷ [])
        (λ off. copy-Isolates address address (λ v. word_add v value) off.0)

  execute_addi-Isolates : (dest src : ℕ) → Isolates x InUserMode (execute_addi dest src)
  unfolding execute_addi
  execute_addi-Isolates dest src =
      checked-Isolates x lo hi (dest ∷ src ∷ []) (λ off.
        then_do (reads src) (λ value. copy-Isolates dest dest (λ v. word_add v value) off.0))

  execute_subi-Isolates : (src dest : ℕ) → Isolates x InUserMode (execute_subi src dest)
  unfolding execute_subi
  execute_subi-Isolates src dest = checked-Isolates x lo hi (src ∷ dest ∷ []) (λ off.
      then_do (reads src) (λ value. copy-Isolates dest dest (λ v. word_sub value v) off.1.0))

  execute_jif-Isolates : (address jump : ℕ) → Isolates x InUserMode (execute_jif address jump)
  unfolding execute_jif
  execute_jif-Isolates address jump = checked-Isolates x lo hi (address ∷ []) (λ _.
      then_do (reads address) (λ value.
        if-Isolates x InUserMode (word_le value 0) (writes 0 jump (low 0 (omega arith)))
          (pure-Isolates x InUserMode tt)))

  execute_push-Isolates : (address : ℕ) → Isolates x InUserMode (execute_push address)
  unfolding execute_push
  execute_push-Isolates address = checked-Isolates x lo hi (address ∷ []) (λ _.
      then_do (reads address) (λ value. then_do (reads 1) (λ sp.
        checked-Isolates x lo hi (word_sub sp 1 ∷ []) (λ off.
          then_do (writes (word_sub sp 1) value off.0)
            (λ _. writes 1 (word_sub sp 1) (low 1 (omega arith)))))))

  execute_pop-Isolates : (address : ℕ) → Isolates x InUserMode (execute_pop address)
  unfolding execute_pop
  execute_pop-Isolates address = checked-Isolates x lo hi (address ∷ []) (λ off.
      then_do (reads 1) (λ sp. checked-Isolates x lo hi (sp ∷ []) (λ _. then_do (reads sp) (λ value.
        then_do (writes address value off.0)
          (λ _. writes 1 (word_add sp 1) (low 1 (omega arith)))))))

  execute_call-Isolates : (jump : ℕ) → Isolates x InUserMode (execute_call jump)
  unfolding execute_call
  execute_call-Isolates jump = then_do (reads 0) (λ pc. then_do (reads 1) (λ sp.
      checked-Isolates x lo hi (word_sub sp 1 ∷ []) (λ off.
        then_do (writes (word_sub sp 1) (word_add pc 1) off.0) (λ _.
          then_do (writes 1 (word_sub sp 1) (low 1 (omega arith)))
            (λ _. writes 0 jump (low 0 (omega arith)))))))

  execute_ret-Isolates : Isolates x InUserMode execute_ret
  unfolding execute_ret
  execute_ret-Isolates = then_do (reads 1) (λ sp. checked-Isolates x lo hi (sp ∷ []) (λ _.
      then_do (reads sp) (λ back.
        then_do (writes 0 back (low 0 (omega arith)))
          (λ _. writes 1 (word_add sp 1) (low 1 (omega arith))))))

  execute_user-Isolates : (operands : List ℕ) → Isolates x InUserMode (execute_user operands)
  unfolding execute_user
  execute_user-Isolates [] = set_mode-Isolates x InUserMode false refl
  execute_user-Isolates (a ∷ b ∷ rest) = set_mode-Isolates x InUserMode false refl
  execute_user-Isolates (a ∷ []) = then_do (set_mode-Isolates x InUserMode false refl) (λ _.
      checked_true-Isolates x InUserMode (a ∷ []) (
        then_do (reads a) (λ jump.
          checked_in-Isolates x lo hi (jump ∷ []) (λ _. writes 0 jump (low 0 (omega arith))))))

  -- The whole table but for SYSCALL.
  pub dispatch-Isolates :
      (t : InstructionType) (kind : Option SyscallType) (operands : List ℕ)
      → t ≢ syscall
      → Isolates x InUserMode (dispatch t kind operands)
  unfolding dispatch
  dispatch-Isolates set kind operands h =
      two_operands-Isolates operands execute_set execute_set-Isolates
  dispatch-Isolates cpy kind operands h =
      two_operands-Isolates operands execute_cpy execute_cpy-Isolates
  dispatch-Isolates cpyi kind operands h =
      two_operands-Isolates operands execute_cpyi execute_cpyi-Isolates
  dispatch-Isolates cpyi2 kind operands h =
      two_operands-Isolates operands execute_cpyi2 execute_cpyi2-Isolates
  dispatch-Isolates add kind operands h =
      two_operands-Isolates operands execute_add execute_add-Isolates
  dispatch-Isolates addi kind operands h =
      two_operands-Isolates operands execute_addi execute_addi-Isolates
  dispatch-Isolates subi kind operands h =
      two_operands-Isolates operands execute_subi execute_subi-Isolates
  dispatch-Isolates jif kind operands h =
      two_operands-Isolates operands execute_jif execute_jif-Isolates
  dispatch-Isolates push kind operands h =
      one_operand-Isolates operands execute_push execute_push-Isolates
  dispatch-Isolates pop kind operands h =
      one_operand-Isolates operands execute_pop execute_pop-Isolates
  dispatch-Isolates call kind operands h =
      one_operand-Isolates operands execute_call execute_call-Isolates
  dispatch-Isolates ret kind operands h = execute_ret-Isolates
  dispatch-Isolates hlt kind operands h = halt-Isolates x InUserMode
  dispatch-Isolates user kind operands h = execute_user-Isolates operands
  dispatch-Isolates syscall kind operands h = absurd (h refl)
