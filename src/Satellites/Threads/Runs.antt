-- ===== src/Satellites/Threads/Runs.antt =====
-- Every run of the threads from the start.
use homeworks.Prelude.{ℕ, ◌≡◌, refl, ap, arith, inr, leb, if_cases}
use homeworks.Satellites.{State, satellite_times_out}
use homeworks.Satellites.Threads.{
  Program, arrived, waiting, late, ended, idle, woken, chosen, finished, closing, exited, Step,
  arrives, posts, polls, times_out, wakes, checks, peeks, shifts, pops, serves, finishes, leaves,
  closes, Reach, here, next, start, polled,
}
use homeworks.Satellites.Threads.Counts.{staff, busy, holding, awaited, to_come}
use homeworks.Satellites.Threads.Arrived.{times_out-All, size-satellite_times_out}
use homeworks.Satellites.Threads.Invariant.{Invariant, HasArrived, engineer_turn, satellite_moves}
use homeworks.Satellites.Threads.Turns.{
  quiet_turn, woken-IsQuiet, checked-IsQuiet, engineer_leaves-IsQuiet, exited-IsQuiet, peeks_turn,
  shifts_turn, pops_turn, serves_turn, finishes_turn,
}
use homeworks.Satellites.Threads.Arrivals.{arrives-Invariant}

awaited-polled : (s : State) (id now deadline : ℕ) → awaited (polled s id now deadline) ≡ 0
unfolding polled awaited
awaited-polled s id now deadline =
    if_cases (λ x. awaited x ≡ 0) (s.requests id).being_served (λ _. refl)
      (λ _. if_cases (λ x. awaited x ≡ 0) (leb deadline now) (λ _. refl) (λ _. refl))

Step-Invariant : {p q : Program} → Invariant p → Step p q → Invariant q
unfolding awaited busy
Step-Invariant {p} v (arrives id rand now l at) = arrives-Invariant p id rand now v l at
Step-Invariant {p} v (posts id rand now at) =
    satellite_moves p p.shared id _ arrived (waiting _) v at refl refl refl refl (omega arith)
      v.queued
Step-Invariant {p} v (polls id now deadline at) =
    satellite_moves p p.shared id p.new_request (waiting deadline) _ v at refl
      (awaited-polled p.shared id now deadline) refl refl (omega arith) v.queued
Step-Invariant {p} v (times_out id at) =
    let (less, free, same) = size-satellite_times_out p.shared id in
    satellite_moves p (satellite_times_out p.shared id) id p.new_request late ended v at refl refl
      free same less (times_out-All (HasArrived p.satellite_threads) p.shared id v.queued)
Step-Invariant {p} v (wakes e l at _) =
    engineer_turn p p.shared e _ idle woken v l at (quiet_turn p idle woken v refl woken-IsQuiet)
Step-Invariant {p} v (checks e l at) =
    engineer_turn p p.shared e p.new_request woken _ v l at
      (quiet_turn p woken _ v refl (checked-IsQuiet p.shared))
Step-Invariant {p} v (peeks e l at) =
    engineer_turn p p.shared e p.new_request chosen _ v l at (peeks_turn p v)
Step-Invariant {p} v (shifts e req i l at m) =
    engineer_turn p _ e p.new_request _ _ v l at (shifts_turn p req i v m)
Step-Invariant {p} v (pops e req i l at m some_there) =
    engineer_turn p _ e p.new_request _ _ v l at (pops_turn p req i v)
Step-Invariant {p} v (serves e req l at) =
    engineer_turn p _ e p.new_request _ _ v l at (serves_turn p e req v l at)
Step-Invariant {p} v (finishes e req l at) =
    engineer_turn p _ e p.new_request _ _ v l at (finishes_turn p req v)
Step-Invariant {p} v (leaves e req l at) =
    engineer_turn p p.shared e p.new_request (finished req) _ v l at
      (quiet_turn p (finished req) _ v refl (engineer_leaves-IsQuiet p.shared))
Step-Invariant {p} v (closes e l at) =
    engineer_turn p p.shared e _ closing exited v l at
      (quiet_turn p closing exited v refl exited-IsQuiet)

start-Invariant : Invariant start
unfolding start staff busy holding awaited to_come
start-Invariant = record {
  staffed = refl;
  room = omega arith;
  queued = λ k l. absurd (omega arith);
  held = λ id. inr refl;
  marked = λ e l req h. absurd (omega (arith, ap busy h));
}

-- Every run of the threads keeps this, also where engineers come between one another within
-- `pop_from_queue`: the free engineers and those that serve are three together; the array has room
-- for the requests in it and for those of all satellites still to come; a request in the queue, and
-- one that an engineer has taken or is taking, is one that its satellite has made; and a request
-- that an engineer serves is marked as served. A critical section is one step, and a run is followed
-- up to a `queue_size--` on an empty queue.
pub Reach-Invariant : {p : Program} → Reach start p → Invariant p
Reach-Invariant here = start-Invariant
Reach-Invariant (next r st) = Step-Invariant (Reach-Invariant r) st
