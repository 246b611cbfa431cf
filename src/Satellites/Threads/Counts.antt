-- ===== src/Satellites/Threads/Counts.antt =====
-- How many engineers are in a state, and how many satellites are still to come.
use homeworks.Prelude.{
  ℕ, zero, suc, ◌+◌, ◌≤◌, ◌<◌, ◌≡◌, refl, sym, ap, ◌∙◌, update, ◌==◌, if◌then◌else◌, arith, inl,
  inr, ==→≡, if_cases, ◌⊎◌,
}
use homeworks.Satellites.Threads.{
  SatellitePc, before, arrived, EngineerPc, idle, woken, chosen, crashed, popping, holds, serving,
  finished, closing, exited,
}

-- The engineers' threads, each counted by f.
unfoldable pub staff : (EngineerPc → ℕ) → (ℕ → EngineerPc) → ℕ
staff f engs = f (engs 0) + f (engs 1) + f (engs 2)

unfoldable pub busy : EngineerPc → ℕ
busy (serving _) = 1
busy _ = 0

unfoldable pub holding : ℕ → EngineerPc → ℕ
holding id (holds req) = if req == id then 1 else 0
holding id (popping req _) = if req == id then 1 else 0
holding id (serving req) = if req == id then 1 else 0
holding id (finished req) = if req == id then 1 else 0
holding id _ = 0

unfoldable pub awaited : SatellitePc → ℕ
awaited before = 1
awaited _ = 0

-- How many of the first n satellites have not arrived.
unfoldable pub to_come : (ℕ → SatellitePc) → ℕ → ℕ
to_come sats zero = 0
to_come sats (suc n) = awaited (sats n) + to_come sats n

pub staff-update :
    (f : EngineerPc → ℕ) (engs : ℕ → EngineerPc) (e : ℕ) (pc : EngineerPc)
    → e < 3
    → staff f (update engs e pc) + f (engs e) ≡ staff f engs + f pc
unfolding staff
staff-update f engs zero pc h = omega arith
staff-update f engs (suc zero) pc h = omega arith
staff-update f engs (suc (suc zero)) pc h = omega arith
staff-update f engs (suc (suc (suc n))) pc h = absurd (omega arith)

pub staff-one :
    (f : EngineerPc → ℕ) (engs : ℕ → EngineerPc) (e : ℕ) → e < 3 → f (engs e) ≤ staff f engs
unfolding staff
staff-one f engs zero h = omega arith
staff-one f engs (suc zero) h = omega arith
staff-one f engs (suc (suc zero)) h = omega arith
staff-one f engs (suc (suc (suc n))) h = absurd (omega arith)

-- Two engineers are counted apart.
pub staff-two :
    (f : EngineerPc → ℕ) (engs : ℕ → EngineerPc) (d e : ℕ)
    → d < 3
    → e < 3
    → (d ≡ e) ⊎ (f (engs d) + f (engs e) ≤ staff f engs)
unfolding staff
staff-two f engs zero zero h l = inl refl
staff-two f engs zero (suc zero) h l = inr (omega arith)
staff-two f engs zero (suc (suc zero)) h l = inr (omega arith)
staff-two f engs (suc zero) zero h l = inr (omega arith)
staff-two f engs (suc zero) (suc zero) h l = inl refl
staff-two f engs (suc zero) (suc (suc zero)) h l = inr (omega arith)
staff-two f engs (suc (suc zero)) zero h l = inr (omega arith)
staff-two f engs (suc (suc zero)) (suc zero) h l = inr (omega arith)
staff-two f engs (suc (suc zero)) (suc (suc zero)) h l = inl refl
staff-two f engs (suc (suc (suc n))) e h l = absurd (omega arith)
staff-two f engs d (suc (suc (suc n))) h l = absurd (omega arith)

to_come-outside :
    (sats : ℕ → SatellitePc) (id n : ℕ) (pc : SatellitePc)
    → n ≤ id
    → to_come (update sats id pc) n ≡ to_come sats n
unfolding to_come
to_come-outside sats id zero pc h = refl
to_come-outside sats id (suc n) pc h =
    if_cases (λ x. awaited x + to_come (update sats id pc) n ≡ awaited (sats n) + to_come sats n)
      (id == n) (λ e. absurd (ground arith))
      (λ _. ap (λ k. awaited (sats n) + k) (to_come-outside sats id n pc (omega arith)))

pub to_come-arrived :
    (sats : ℕ → SatellitePc) (id n : ℕ)
    → id < n
    → sats id ≡ before
    → to_come (update sats id arrived) n + 1 ≡ to_come sats n
unfolding to_come awaited
to_come-arrived sats id zero h e = absurd (omega arith)
to_come-arrived sats id (suc n) h e =
    if_cases
      (λ x. awaited x + to_come (update sats id arrived) n + 1 ≡ awaited (sats n) + to_come sats n)
      (id == n)
      (λ l.
        let one : awaited (sats n) ≡ 1 =
          ap (λ k. awaited (sats k)) (sym (==→≡ id n l)) ∙ ap awaited e in
        omega (arith, one, to_come-outside sats id n arrived (ground arith)))
      (λ l. omega (arith, to_come-arrived sats id n (ground arith) e))

-- A thread that has arrived stays so.
pub to_come-update :
    (sats : ℕ → SatellitePc) (id n : ℕ) (pc : SatellitePc)
    → awaited (sats id) ≡ awaited pc
    → to_come (update sats id pc) n ≡ to_come sats n
unfolding to_come
to_come-update sats id zero pc h = refl
to_come-update sats id (suc n) pc h =
    if_cases (λ x. awaited x + to_come (update sats id pc) n ≡ awaited (sats n) + to_come sats n)
      (id == n) (λ l. rw (to_come-update sats id n pc h, sym h, ==→≡ id n l) refl)
      (λ _. ap (λ k. awaited (sats n) + k) (to_come-update sats id n pc h))

busy_le : (pc : EngineerPc) → busy pc ≤ 1
unfolding busy
busy_le idle = omega arith
busy_le woken = omega arith
busy_le chosen = omega arith
busy_le crashed = omega arith
busy_le (popping _ _) = omega arith
busy_le (holds _) = omega arith
busy_le (serving _) = omega arith
busy_le (finished _) = omega arith
busy_le closing = omega arith
busy_le exited = omega arith

pub staff-busy : (engs : ℕ → EngineerPc) → staff busy engs ≤ 3
unfolding staff
staff-busy engs = omega (arith, busy_le (engs 0), busy_le (engs 1), busy_le (engs 2))
