-- ===== src/Machine/Laws.antt =====
-- Reads, writes and checks that succeed.
use homeworks.Prelude.{ℕ, ◌<◌, ◌≡◌, refl, true, [], ◌∷◌, lt→ltb, update}
use homeworks.Machine.{
  Cpu, M, returns, read, write, checked, checked_in, is_address_valid, ◌>>=◌, ◌>>◌,
}

-- The state after a write.
abbrev pub written : ℕ → ℕ → Cpu → Cpu
written a v c = record c { memory = record c.memory { cells = update c.memory.cells a v } }

pub read-bind :
    {B : Type 0} (a : ℕ) (f : ℕ → M B) (c : Cpu)
    → a < c.memory.size
    → (read a >>= f) c ≡ f (c.memory.cells a) c
unfolding read
read-bind a f c h = rw (lt→ltb a c.memory.size h) refl

pub write-bind :
    {B : Type 0} (a v : ℕ) (f : M B) (c : Cpu)
    → a < c.memory.size
    → (write a v >> f) c ≡ f (written a v c)
unfolding write
write-bind a v f c h = rw (lt→ltb a c.memory.size h) refl

pub write-written :
    (a v : ℕ) (c : Cpu) → a < c.memory.size → write a v c ≡ (returns tt, written a v c)
unfolding write
write-written a v c h = rw (lt→ltb a c.memory.size h) refl

pub checked-valid :
    (a : ℕ) (m : M (Unit {0})) (c : Cpu)
    → is_address_valid c.memory a c.kernel_mode ≡ true
    → checked (a ∷ []) m c ≡ m c
unfolding checked checked_in
checked-valid a m c h = rw h refl
