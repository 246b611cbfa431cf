-- ===== src/Satellites/Threads/Arrivals.antt =====
-- HW3 main.c: a satellite makes its request.
use homeworks.Prelude.{
  ℕ, ◌<◌, ◌≡◌, refl, sym, ap, ◌∙◌, update, ◌==◌, arith, inl, inr, ==→≡, if_cases, true, false,
  negsuc,
}
use homeworks.Satellites.{SatelliteRequest, State, satellites, satellite_arrives, add_to_queue}
use homeworks.Satellites.Threads.{Program, before, arrived, serving, get_satellite_priority}
use homeworks.Satellites.Threads.Counts.{holding, awaited, staff-one, to_come-arrived}
use homeworks.Satellites.Threads.Arrived.{add_to_queue-All}
use homeworks.Satellites.Threads.Invariant.{Invariant, HasArrived, awaited-update}

-- No engineer serves a request that is still to be made.
not-serving-before :
    (p : Program) (id e : ℕ)
    → Invariant p
    → e < 3
    → p.satellite_threads id ≡ before
    → p.engineer_threads e ≡ serving id
    → ⊥
unfolding awaited holding
not-serving-before p id e v l at serves = elim (v.held id) [
  | inl made ↦ omega (arith, made, ap awaited at)
  | inr nobody ↦
      let one : holding id (p.engineer_threads e) ≡ 1 = ap (holding id) serves ∙ ground arith in
      omega (arith, nobody, one, staff-one (holding id) p.engineer_threads e l)
]

pub arrives-Invariant :
    (p : Program) (id rand now : ℕ)
    → Invariant p
    → id < satellites
    → p.satellite_threads id ≡ before
    → Invariant (record p {
      shared = satellite_arrives p.shared id (get_satellite_priority rand) now;
      satellite_threads = update p.satellite_threads id arrived;
    })
unfolding awaited satellite_arrives add_to_queue
arrives-Invariant p id rand now v l at =
    let sats = update p.satellite_threads id arrived in
    let announced : State = record p.shared {
      requests = update p.shared.requests id (record {
        id = id;
        priority = get_satellite_priority rand;
        arrival_time = now;
        being_served = false;
        engineer_id = negsuc 0;
      });
    } in
    let stays = λ (i : ℕ) (h : HasArrived p.satellite_threads i).
      awaited-update p.satellite_threads id i arrived refl h in
    record {
      staffed = v.staffed;
      room = omega (arith, v.room, to_come-arrived p.satellite_threads id satellites l at);
      queued =
          add_to_queue-All (HasArrived sats) announced id
            (if_cases (λ x. awaited x ≡ 0) (id == id) (λ _. refl) (λ e. absurd (ground arith)))
            (λ k m. stays _ (v.queued k m));
      held = λ i. elim (v.held i) [ inl made ↦ inl (stays i made) | inr nobody ↦ inr nobody ];
      marked = λ e k req serves.
          if_cases (λ (x : SatelliteRequest). x.being_served ≡ true) (id == req)
            (λ same.
              absurd
                (not-serving-before p id e v k at (serves ∙ ap serving (sym (==→≡ id req same)))))
            (λ _. v.marked e k req serves);
    }
