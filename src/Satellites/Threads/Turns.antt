-- ===== src/Satellites/Threads/Turns.antt =====
-- HW3 main.c: the turns of an engineer.
use homeworks.Prelude.{
  ℕ, ◌+◌, ◌-◌, ◌<◌, ◌≡◌, refl, ap, subst, update, ◌==◌, arith, inl, inr, Bool-cases, ==→≡, if_cases,
  ltb, true, ◌&&◌,
}
use homeworks.Satellites.{SatelliteRequest, State}
use homeworks.Satellites.Threads.{
  Program, EngineerPc, woken, chosen, crashed, popping, holds, serving, finished, exited, checked,
  peeked, moves_up, engineer_serves, engineer_finishes, engineer_leaves,
}
use homeworks.Satellites.Threads.Counts.{busy, holding, staff-update, staff-busy}
use homeworks.Satellites.Threads.Arrived.{update-All}
use homeworks.Satellites.Threads.Invariant.{Invariant, HasArrived, IsMarked, EngineerTurn}

-- An engineer that has no request.
pub record IsQuiet (pc : EngineerPc) : Type 0 where
  not_busy : busy pc ≡ 0
  holds_none : (id : ℕ) → holding id pc ≡ 0

pub woken-IsQuiet : IsQuiet woken
unfolding busy holding
woken-IsQuiet = record { not_busy = refl; holds_none = λ _. refl }

pub exited-IsQuiet : IsQuiet exited
unfolding busy holding
exited-IsQuiet = record { not_busy = refl; holds_none = λ _. refl }

pub checked-IsQuiet : (s : State) → IsQuiet (checked s)
unfolding checked busy holding
checked-IsQuiet s =
    if_cases IsQuiet (ltb 0 s.queue_size && ltb 0 s.available_engineers)
      (λ _. record { not_busy = refl; holds_none = λ _. refl })
      (λ _.
        if_cases IsQuiet (s.queue_size == 0) (λ _. exited-IsQuiet)
          (λ _. record { not_busy = refl; holds_none = λ _. refl }))

pub engineer_leaves-IsQuiet : (s : State) → IsQuiet (engineer_leaves s)
unfolding engineer_leaves busy holding
engineer_leaves-IsQuiet s =
    if_cases IsQuiet (s.queue_size == 0) (λ _. record { not_busy = refl; holds_none = λ _. refl })
      (λ _. record { not_busy = refl; holds_none = λ _. refl })

not-serving :
    (requests : ℕ → SatelliteRequest) (pc : EngineerPc) → busy pc ≡ 0 → IsMarked requests pc
unfolding busy
not-serving requests pc h req e = absurd (omega (arith, h, ap busy e))

pub quiet_turn :
    (p : Program) (a pc : EngineerPc)
    → Invariant p
    → busy a ≡ 0
    → IsQuiet pc
    → EngineerTurn p p.shared a pc
quiet_turn p a pc v free quiet = record {
  free = omega (arith, free, quiet.not_busy);
  shrinks = omega arith;
  queued = v.queued;
  takes = λ id. inr (omega (arith, quiet.holds_none id));
  marks = λ id h. h;
  own = not-serving p.shared.requests pc quiet.not_busy;
}

pub peeks_turn : (p : Program) → Invariant p → EngineerTurn p p.shared chosen (peeked p.shared)
unfolding peeked busy holding
peeks_turn p v =
    if_cases (EngineerTurn p p.shared chosen) (p.shared.queue_size == 0)
      (λ _. quiet_turn p chosen crashed v refl record { not_busy = refl; holds_none = λ _. refl })
      (λ some_there. record {
        free = refl;
        shrinks = omega arith;
        queued = v.queued;
        takes = λ id. elim (Bool-cases (p.shared.request_queue 0 == id)) [
          | inl same ↦
              inl (
                subst (HasArrived p.satellite_threads) (==→≡ _ id same) (v.queued 0 (ground arith)))
          | inr other ↦ inr (ground arith)
        ];
        marks = λ id h. h;
        own = not-serving p.shared.requests (popping (p.shared.request_queue 0) 1) refl;
      })

pub shifts_turn :
    (p : Program) (req i : ℕ)
    → Invariant p
    → i < p.shared.queue_size
    → EngineerTurn p (moves_up p.shared i) (popping req i) (popping req (i + 1))
unfolding moves_up busy holding
shifts_turn p req i v l = record {
  free = refl;
  shrinks = omega arith;
  queued = λ k m.
      update-All (HasArrived p.satellite_threads) p.shared.request_queue (i - 1)
        (p.shared.request_queue i) k (v.queued i l) (λ _. v.queued k m);
  takes = λ id. inr (omega arith);
  marks = λ id h. h;
  own = not-serving p.shared.requests (popping req (i + 1)) refl;
}

pub pops_turn :
    (p : Program) (req i : ℕ)
    → Invariant p
    → EngineerTurn p
        (record p.shared { queue_size = p.shared.queue_size - 1 })
        (popping req i)
        (holds req)
unfolding busy holding
pops_turn p req i v = record {
  free = refl;
  shrinks = omega arith;
  queued = λ k m. v.queued k (omega arith);
  takes = λ id. inr (omega arith);
  marks = λ id h. h;
  own = not-serving p.shared.requests (holds req) refl;
}

serves-own :
    (requests : ℕ → SatelliteRequest) (r : SatelliteRequest) (req : ℕ)
    → r.being_served ≡ true
    → IsMarked (update requests req r) (serving req)
unfolding holding
serves-own requests r req h id e =
    if_cases (λ (x : SatelliteRequest). x.being_served ≡ true) (req == id) (λ _. h)
      (λ ne. absurd (ground (arith, ne, ap (holding id) e)))

pub serves_turn :
    (p : Program) (e req : ℕ)
    → Invariant p
    → e < 3
    → p.engineer_threads e ≡ holds req
    → EngineerTurn p (engineer_serves p.shared e req) (holds req) (serving req)
unfolding engineer_serves busy holding
serves_turn p e req v l at = record {
  free = omega (
    arith,
    v.staffed,
    staff-update busy p.engineer_threads e (serving req) l,
    ap busy at,
    staff-busy (update p.engineer_threads e (serving req)),
  );
  shrinks = omega arith;
  queued = v.queued;
  takes = λ id. inr (omega arith);
  marks = λ id h.
      if_cases (λ (x : SatelliteRequest). x.being_served ≡ true) (req == id) (λ _. refl) (λ _. h);
  own = serves-own p.shared.requests _ req refl;
}

pub finishes_turn :
    (p : Program) (req : ℕ)
    → Invariant p
    → EngineerTurn p (engineer_finishes p.shared) (serving req) (finished req)
unfolding engineer_finishes busy holding
finishes_turn p req v = record {
  free = omega arith;
  shrinks = omega arith;
  queued = v.queued;
  takes = λ id. inr (omega arith);
  marks = λ id h. h;
  own = not-serving p.shared.requests (finished req) refl;
}
