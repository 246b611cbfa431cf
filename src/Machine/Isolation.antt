-- ===== src/Machine/Isolation.antt =====
-- What an instruction that runs in user mode can change. Between the registers and the space of
-- the threads lie the variables of the operating system and its thread table.
pub mod Handlers
pub mod Steps
pub mod UserMode
use homeworks.Prelude.{
  ℕ, ◌+◌, ◌≤◌, ◌<◌, ◌≡◌, ◌≢◌, refl, sym, ap, ◌∙◌, subst, Bool, true, false, ◌&&◌, ◌||◌, List, [],
  ◌∷◌, ltb, leb, ◌==◌, ==→≡, if◌then◌else◌, if_cases, update, arith,
}
use homeworks.Machine.{
  Memory, Cpu, M, Outcome, returns, throws, undefined, pure, throw, read, write, halt, set_mode,
  checked, checked_in, is_address_valid, after, ◌>>=◌, ◌>>◌,
}

-- None of the addresses is x.
abbrev pub Avoids : ℕ → List ℕ → Type 0
Avoids x [] = Unit {0}
Avoids x (a ∷ rest) = (a ≢ x) × Avoids x rest

abbrev pub InUserMode : Bool → Type 0
InUserMode b = b ≡ false

-- The cell x is as before, and P holds of the mode of the CPU.
module _ (x : ℕ) (P : Bool → Type 0) where
  abbrev pub IsKept : Cpu → Cpu → Type 0
  IsKept c d = (d.memory.cells x ≡ c.memory.cells x) × P d.kernel_mode

  pub record Isolates {A : Type 0} (m : M A) : Type 0 where
    pub keeps : (c : Cpu) → P c.kernel_mode → IsKept c (m c).1

  -- What follows a call starts in the state that the call leaves.
  pub after-IsKept :
      {A B : Type 0} (o : Outcome A) (f : A → M B) (c d : Cpu)
      → ((a : A) → IsKept d (f a d).1)
      → IsKept c d
      → IsKept c (after o f d).1
  after-IsKept (returns a) f c d h k = ((h a).0 ∙ k.0, (h a).1)
  after-IsKept throws f c d h k = k
  after-IsKept undefined f c d h k = k

  pub bind-Isolates :
      {A B : Type 0} {m : M A} {f : A → M B}
      → Isolates m
      → ((a : A) → Isolates (f a))
      → Isolates (m >>= f)
  bind-Isolates {A} {B} {m} {f} h k = record {
    keeps = λ c u.
        after-IsKept (m c).0 f c (m c).1 (λ a. (k a).keeps (m c).1 (h.keeps c u).1) (h.keeps c u);
  }

  pub pure-Isolates : {A : Type 0} (a : A) → Isolates (pure a)
  pure-Isolates a = record { keeps = λ c u. (refl, u) }

  pub throw-Isolates : (A : Type 0) → Isolates {A = A} throw
  throw-Isolates A = record { keeps = λ c u. (refl, u) }

  pub halt-Isolates : Isolates halt
  halt-Isolates = record { keeps = λ c u. (refl, u) }

  pub set_mode-Isolates : (b : Bool) → P b → Isolates (set_mode b)
  set_mode-Isolates b h = record { keeps = λ c u. (refl, h) }

  pub read-Isolates : (a : ℕ) → Isolates (read a)
  unfolding read
  read-Isolates a = record {
    keeps = λ c u.
        if_cases (λ (out : Outcome ℕ × Cpu). IsKept c out.1) (ltb a c.memory.size) (λ _. (refl, u))
          (λ _. (refl, u));
  }

  pub write-Isolates : (a v : ℕ) → a ≢ x → Isolates (write a v)
  unfolding write
  write-Isolates a v off = record {
    keeps = λ c u.
        if_cases (λ (out : Outcome (Unit {0}) × Cpu). IsKept c out.1) (ltb a c.memory.size)
          (λ _. (
            if_cases (λ (n : ℕ). n ≡ c.memory.cells x) (a == x) (λ e. absurd (off (==→≡ a x e)))
                (λ _. refl),
            u,
          ))
          (λ _. (refl, u));
  }

  pub if-Isolates :
      {A : Type 0} (b : Bool) {m n : M A} → Isolates m → Isolates n → Isolates (if b then m else n)
  if-Isolates {A} b h k = if_cases (λ (t : M A). Isolates t) b (λ _. h) (λ _. k)

  -- Checks that nothing is concluded from.
  pub checked_true-Isolates :
      (addresses : List ℕ) {m : M (Unit {0})} → Isolates m → Isolates (checked_in true addresses m)
  unfolding checked_in
  checked_true-Isolates [] h = h
  checked_true-Isolates (a ∷ rest) h = record {
    keeps = λ c u.
        if_cases (λ (out : Outcome (Unit {0}) × Cpu). IsKept c out.1)
          (is_address_valid c.memory a true) (λ _. (checked_true-Isolates rest h).keeps c u)
          (λ _. halt-Isolates.keeps c u);
  }

module _ (x : ℕ) (lo : 20 < x) (hi : x < 1000) where
  valid-ne : (m : Memory) (a : ℕ) → is_address_valid m a false ≡ true → a ≢ x
  valid-ne m a h e = ground arith

  pub checked_in-Isolates :
      (addresses : List ℕ) {m : M (Unit {0})}
      → (Avoids x addresses → Isolates x InUserMode m)
      → Isolates x InUserMode (checked_in false addresses m)
  unfolding checked_in
  checked_in-Isolates [] h = h tt
  checked_in-Isolates (a ∷ rest) {m} h = record {
    keeps = λ c u.
        if_cases (λ (out : Outcome (Unit {0}) × Cpu). IsKept x InUserMode c out.1)
          (is_address_valid c.memory a false)
          (λ ok. (checked_in-Isolates rest (λ off. h (valid-ne c.memory a ok, off))).keeps c u)
          (λ _. (halt-Isolates x InUserMode).keeps c u);
  }

  pub checked-Isolates :
      (addresses : List ℕ) {m : M (Unit {0})}
      → (Avoids x addresses → Isolates x InUserMode m)
      → Isolates x InUserMode (checked addresses m)
  unfolding checked
  checked-Isolates addresses {m} h = record {
    keeps = λ c u.
        subst (λ b. IsKept x InUserMode c (checked_in b addresses m c).1) (sym u)
          ((checked_in-Isolates addresses h).keeps c u);
  }
