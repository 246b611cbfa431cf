-- ===== src/Machine.antt =====
-- The CPU simulator of Operating Systems/Semester Project/Project: memory.cpp, and what the files
-- cpu.cpp, cpu.h and instruction.h declare. A `long` and a `size_t` are the same 64-bit word, the
-- number that stands for it as a `size_t`.
pub mod Instructions
pub mod Execute
pub mod Laws
pub mod Stack
pub mod Isolation
pub mod Control
pub mod Lexer
pub mod Parser
pub mod Examples
use homeworks.Prelude.{
  ℕ, ◌+◌, ◌-◌, ◌%◌, ◌^◌, ◌≤◌, Bool, true, false, ◌&&◌, ◌||◌, Option, List, [], ◌∷◌, ltb, leb, ◌==◌,
  if◌then◌else◌, update,
}

pub data InstructionType : Type 0 where
  set cpy cpyi cpyi2 add addi subi jif push pop call ret hlt user syscall : InstructionType

pub data SyscallType : Type 0 where
  prn hlt yield : SyscallType

-- `syscall_type` is `none` where the constructor leaves it uninitialised.
pub record Instruction : Type 0 where
  pub type : InstructionType
  pub syscall_type : Option SyscallType
  pub operands : List ℕ

pub record Memory : Type 0 where
  pub cells : ℕ → ℕ
  pub size : ℕ

abbrev pub user_space_start : ℕ
user_space_start = 1000

abbrev pub is_address_valid : Memory → ℕ → Bool → Bool
is_address_valid m address kernel_mode =
    if kernel_mode
    then ltb address m.size
    else (leb address 20 || leb user_space_start address) && ltb address m.size

-- `output` holds what PRN prints, the last line first: thread, address and value.
pub record Cpu : Type 0 where
  pub memory : Memory
  pub instructions : ℕ → Option Instruction
  pub halted : Bool
  pub kernel_mode : Bool
  pub output : List (ℕ × ℕ × ℕ)

-- How a call ends: it returns, an exception leaves it, or its behaviour is undefined.
pub data Outcome {ℓ} (A : Type ℓ) : Type ℓ where
  returns : A → Outcome A
  throws : Outcome A
  undefined : Outcome A

-- An exception keeps the changes made before it.
abbrev pub M {ℓ} : Type ℓ → Type ℓ
M A = Cpu → Outcome A × Cpu

abbrev pub after {ℓ κ} : {A : Type ℓ} {B : Type κ} → Outcome A → (A → M B) → M B
after (returns a) f c = f a c
after throws f c = (throws, c)
after undefined f c = (undefined, c)

infixl 5 ◌>>=◌ ◌>>◌
abbrev pub ◌>>=◌ {ℓ κ} : {A : Type ℓ} {B : Type κ} → M A → (A → M B) → M B
◌>>=◌ m f c = after (m c).0 f (m c).1

abbrev pub ◌>>◌ {ℓ} : {B : Type ℓ} → M (Unit {0}) → M B → M B
m >> k = m >>= λ _. k

abbrev pub pure {ℓ} : {A : Type ℓ} → A → M A
pure a c = (returns a, c)

abbrev pub throw {ℓ} : {A : Type ℓ} → M A
throw c = (throws, c)

unfoldable pub read : ℕ → M ℕ
read address c =
    if ltb address c.memory.size then (returns (c.memory.cells address), c) else (throws, c)

unfoldable pub write : ℕ → ℕ → M (Unit {0})
write address value c =
    if ltb address c.memory.size
    then (
      returns tt,
      record c { memory = record c.memory { cells = update c.memory.cells address value } },
    )
    else (throws, c)

abbrev pub halt : M (Unit {0})
halt c = (returns tt, record c { halted = true })

abbrev pub set_mode : Bool → M (Unit {0})
set_mode b c = (returns tt, record c { kernel_mode = b })

-- `if (!memory.isAddressValid(a, mode) || …) { halted = true; return; }`
unfoldable pub checked_in : Bool → List ℕ → M (Unit {0}) → M (Unit {0})
checked_in mode [] m c = m c
checked_in mode (a ∷ rest) m c =
    let go = checked_in mode rest m c in if is_address_valid c.memory a mode then go else halt c

unfoldable pub checked : List ℕ → M (Unit {0}) → M (Unit {0})
unfolding checked_in
checked addresses m c = checked_in c.kernel_mode addresses m c

-- Arithmetic and comparison of `long`.
abbrev pub word_add : ℕ → ℕ → ℕ
word_add a b = (a + b) % 2 ^ 64

abbrev pub word_sub : ℕ → ℕ → ℕ
word_sub a b = (a + (2 ^ 64 - b)) % 2 ^ 64

abbrev pub word_le : ℕ → ℕ → Bool
word_le a b = leb ((a + 2 ^ 63) % 2 ^ 64) ((b + 2 ^ 63) % 2 ^ 64)

-- A `long` that goes through an `int` and back.
abbrev pub through_int : ℕ → ℕ
through_int a = if ltb (a % 2 ^ 32) (2 ^ 31) then a % 2 ^ 32 else a % 2 ^ 32 + (2 ^ 64 - 2 ^ 32)
