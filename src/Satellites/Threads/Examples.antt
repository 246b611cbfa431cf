-- ===== src/Satellites/Threads/Examples.antt =====
-- The theorems on the threads at a run in which two engineers come between one another.
use homeworks.Prelude.{ℕ, ◌+◌, ◌-◌, ◌≡◌, refl, arith, update, ◌%◌, first_from}
use homeworks.Satellites.{
  satellite_arrives, add_to_queue, shift_loop, stays_before, satellite_times_out, is_waiting,
  close_gap,
}
use homeworks.Satellites.Threads.{
  Program, arrived, waiting, woken, crashed, popping, holds, peeked, moves_up, serving, arrives,
  posts, wakes, checks, peeks, shifts, pops, serves, Reach, here, next, start, checked, late, ended,
  polls, polled, times_out, engineer_serves, get_satellite_priority,
}
use homeworks.Satellites.Threads.Invariant.{Invariant}
use homeworks.Satellites.Threads.Runs.{Reach-Invariant}

abbrev after_arrives : Program → ℕ → ℕ → ℕ → Program
after_arrives p id rand now = record p {
  shared = satellite_arrives p.shared id (get_satellite_priority rand) now;
  satellite_threads = update p.satellite_threads id arrived;
}

abbrev after_posts : Program → ℕ → Program
after_posts p id = record p {
  new_request = p.new_request + 1;
  satellite_threads = update p.satellite_threads id (waiting (20 + (4 % 10 + 1)));
}

-- Satellites 4 and 7 make their requests, the second with a higher priority.
abbrev two_requests : Program
two_requests = after_posts (after_arrives (after_posts (after_arrives start 4 14 20) 4) 7 11 20) 7

requests_run : Reach start two_requests
unfolding start
requests_run =
    next
      (next (next (next here (arrives 4 14 20 (omega arith) refl)) (posts 4 4 20 refl))
        (arrives 7 11 20 (omega arith) refl))
      (posts 7 4 20 refl)

abbrev after_wakes : Program → ℕ → Program
after_wakes p e = record p {
  new_request = p.new_request - 1;
  engineer_threads = update p.engineer_threads e woken;
}

abbrev after_checks : Program → ℕ → Program
after_checks p e = record p { engineer_threads = update p.engineer_threads e (checked p.shared) }

abbrev after_peeks : Program → ℕ → Program
after_peeks p e = record p { engineer_threads = update p.engineer_threads e (peeked p.shared) }

abbrev after_shifts : Program → ℕ → ℕ → ℕ → Program
after_shifts p e req i = record p {
  shared = moves_up p.shared i;
  engineer_threads = update p.engineer_threads e (popping req (i + 1));
}

abbrev after_pops : Program → ℕ → ℕ → Program
after_pops p e req = record p {
  shared = record p.shared { queue_size = p.shared.queue_size - 1 };
  engineer_threads = update p.engineer_threads e (holds req);
}

abbrev both_woken : Program
both_woken = after_wakes (after_wakes two_requests 0) 1

woken_run : Reach start both_woken
unfolding start
woken_run =
    next (next requests_run (wakes 0 (omega arith) refl (omega arith)))
      (wakes 1 (omega arith) refl (omega arith))

-- Both engineers read the first pointer before one of them has moved the others up.
abbrev both_peek : Program
both_peek = after_peeks (after_peeks (after_checks (after_checks both_woken 0) 1) 0) 1

abbrev both_hold : Program
both_hold = after_pops (after_pops (after_shifts both_peek 0 7 1) 0 7) 1 7

abbrev after_serves : Program → ℕ → ℕ → Program
after_serves p e req = record p {
  shared = engineer_serves p.shared e req;
  engineer_threads = update p.engineer_threads e (serving req);
}

abbrev both_serve : Program
both_serve = after_serves (after_serves both_hold 0 7) 1 7

peek_run : Reach start both_peek
unfolding start checked peeked satellite_arrives add_to_queue shift_loop stays_before
    get_satellite_priority
peek_run =
    next
      (next (next (next woken_run (checks 0 (omega arith) refl)) (checks 1 (omega arith) refl))
        (peeks 0 (omega arith) refl))
      (peeks 1 (omega arith) refl)

serving_run : Reach start both_serve
unfolding start checked peeked moves_up satellite_arrives add_to_queue shift_loop stays_before
    get_satellite_priority
serving_run =
    next
      (next
        (next
          (next (next peek_run (shifts 0 7 1 (omega arith) refl (omega arith)))
            (pops 0 7 2 (omega arith) refl (omega arith) (omega arith)))
          (pops 1 7 1 (omega arith) refl (omega arith) (omega arith)))
        (serves 0 7 (omega arith) refl))
      (serves 1 7 (omega arith) refl)

-- Two engineers serve satellite 7, and the request of satellite 4 is in no place any more.
same_request_twice :
    (both_serve.engineer_threads 0 ≡ serving 7)
    × (both_serve.engineer_threads 1 ≡ serving 7)
    × (both_serve.shared.queue_size ≡ 0)
unfolding satellite_arrives add_to_queue shift_loop stays_before engineer_serves moves_up start
same_request_twice = (refl, refl, refl)

Reach-Invariant_example : Invariant both_serve
Reach-Invariant_example = Reach-Invariant serving_run

-- Both engineers pass the test, then satellite 7 gives up: the second engineer uses NULL.
abbrev one_left : Program
one_left =
    let p = after_checks (after_checks both_woken 0) 1 in
    let q = record p { satellite_threads = update p.satellite_threads 7 late } in
    record q {
      shared = satellite_times_out q.shared 7;
      satellite_threads = update q.satellite_threads 7 ended;
    }

one_left_run : Reach start one_left
unfolding start checked polled satellite_arrives add_to_queue shift_loop stays_before
one_left_run =
    next
      (next (next (next woken_run (checks 0 (omega arith) refl)) (checks 1 (omega arith) refl))
        (polls 7 25 25 refl))
      (times_out 7 refl)

abbrev crash : Program
crash = after_peeks (after_pops (after_peeks one_left 0) 0 4) 1

crash_run : Reach start crash
unfolding start checked peeked satellite_arrives add_to_queue shift_loop stays_before
    satellite_times_out is_waiting close_gap first_from get_satellite_priority
crash_run =
    next
      (next (next one_left_run (peeks 0 (omega arith) refl))
        (pops 0 4 1 (omega arith) refl (omega arith) (omega arith)))
      (peeks 1 (omega arith) refl)

crash_of_second : crash.engineer_threads 1 ≡ crashed
unfolding start checked peeked satellite_arrives add_to_queue shift_loop stays_before
    satellite_times_out is_waiting close_gap first_from get_satellite_priority
crash_of_second = refl
