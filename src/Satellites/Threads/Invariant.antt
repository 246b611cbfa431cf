-- ===== src/Satellites/Threads/Invariant.antt =====
-- What holds between the turns of the threads, however they come between one another.
use homeworks.Prelude.{
  ℕ, ◌+◌, ◌≤◌, ◌<◌, ◌≡◌, sym, ap, ◌∙◌, subst, update, ◌==◌, arith, inl, inr, ◌⊎◌, if_cases, true,
}
use homeworks.Satellites.{SatelliteRequest, State, satellites}
use homeworks.Satellites.Threads.{Program, SatellitePc, EngineerPc, serving}
use homeworks.Satellites.Threads.Counts.{
  staff, busy, holding, awaited, to_come, staff-update, to_come-update,
}
use homeworks.Satellites.Threads.Arrived.{AllQueued}

-- The satellite has made its request.
abbrev pub HasArrived : (ℕ → SatellitePc) → ℕ → Type 0
HasArrived sats id = awaited (sats id) ≡ 0

abbrev pub IsMarked : (ℕ → SatelliteRequest) → EngineerPc → Type 0
IsMarked requests pc = (req : ℕ) → pc ≡ serving req → (requests req).being_served ≡ true

-- The free engineers and those that serve are three together; the array has room for the requests
-- in it and those of the satellites still to come; a pointer in the queue, and one that an engineer
-- has, is to a request that has been made; and what an engineer serves is marked as served.
pub record Invariant (p : Program) : Type 0 where
  pub staffed : p.shared.available_engineers + staff busy p.engineer_threads ≡ 3
  pub room : p.shared.queue_size + to_come p.satellite_threads satellites ≤ satellites
  pub queued : AllQueued (HasArrived p.satellite_threads) p.shared
  pub held :
      (id : ℕ) → HasArrived p.satellite_threads id ⊎ (staff (holding id) p.engineer_threads ≡ 0)
  pub marked : (e : ℕ) → e < 3 → IsMarked p.shared.requests (p.engineer_threads e)

-- A turn of engineer e, from a to pc, that changes the shared state to t.
pub record EngineerTurn (p : Program) (t : State) (a pc : EngineerPc) : Type 0 where
  pub free : t.available_engineers + busy pc ≡ p.shared.available_engineers + busy a
  pub shrinks : t.queue_size ≤ p.shared.queue_size
  pub queued : AllQueued (HasArrived p.satellite_threads) t
  pub takes : (id : ℕ) → HasArrived p.satellite_threads id ⊎ (holding id pc ≤ holding id a)
  pub marks :
      (id : ℕ) → (p.shared.requests id).being_served ≡ true → (t.requests id).being_served ≡ true
  pub own : IsMarked t.requests pc

pub engineer_turn :
    (p : Program) (t : State) (e n : ℕ) (a pc : EngineerPc)
    → Invariant p
    → e < 3
    → p.engineer_threads e ≡ a
    → EngineerTurn p t a pc
    → Invariant (record p {
      shared = t;
      new_request = n;
      engineer_threads = update p.engineer_threads e pc;
    })
engineer_turn p t e n a pc v l at h = record {
  staffed =
      omega (arith, v.staffed, h.free, staff-update busy p.engineer_threads e pc l, ap busy at);
  room = omega (arith, v.room, h.shrinks);
  queued = h.queued;
  held = λ id. elim (v.held id) [
    | inl made ↦ inl made
    | inr nobody ↦ elim (h.takes id) [
      | inl made ↦ inl made
      | inr less ↦ inr (
          omega (
            arith,
            nobody,
            less,
            staff-update (holding id) p.engineer_threads e pc l,
            ap (holding id) at,
          ))
    ]
  ];
  marked = λ d k.
      if_cases (IsMarked t.requests) (e == d) (λ _. h.own)
        (λ _ req serves. h.marks req (v.marked d k req serves));
}

pub awaited-update :
    (sats : ℕ → SatellitePc) (id i : ℕ) (pc : SatellitePc)
    → awaited pc ≡ 0
    → HasArrived sats i
    → HasArrived (update sats id pc) i
awaited-update sats id i pc none h = if_cases (λ x. awaited x ≡ 0) (id == i) (λ _. none) (λ _. h)

-- A satellite that has arrived goes on.
pub satellite_moves :
    (p : Program) (t : State) (id n : ℕ) (a pc : SatellitePc)
    → Invariant p
    → p.satellite_threads id ≡ a
    → awaited a ≡ 0
    → awaited pc ≡ 0
    → t.available_engineers ≡ p.shared.available_engineers
    → t.requests ≡ p.shared.requests
    → t.queue_size ≤ p.shared.queue_size
    → AllQueued (HasArrived p.satellite_threads) t
    → Invariant (record p {
      shared = t;
      new_request = n;
      satellite_threads = update p.satellite_threads id pc;
    })
satellite_moves p t id n a pc v at h k free same less queued =
    let none : awaited (p.satellite_threads id) ≡ awaited pc = ap awaited at ∙ h ∙ sym k in
    record {
      staffed = omega (arith, v.staffed, free);
      room = omega (arith, v.room, less, to_come-update p.satellite_threads id satellites pc none);
      queued = λ j l. awaited-update p.satellite_threads id _ pc k (queued j l);
      held = λ i. elim (v.held i) [
        | inl made ↦ inl (awaited-update p.satellite_threads id i pc k made)
        | inr nobody ↦ inr nobody
      ];
      marked =
          subst (λ (r : ℕ → SatelliteRequest). (e : ℕ) → e < 3 → IsMarked r (p.engineer_threads e))
            (sym same) v.marked;
    }
