-- ===== src/Satellites/Threads.antt =====
-- HW3 main.c: the threads of satellites and engineers around the queue, one step at a time.
pub mod Counts
pub mod Arrived
pub mod Invariant
pub mod Turns
pub mod Arrivals
pub mod Runs
pub mod Examples
use homeworks.Prelude.{
  ℕ, ◌+◌, ◌-◌, ◌%◌, ◌<◌, ◌≤◌, ◌≡◌, Bool, true, false, ◌&&◌, none, some, ltb, leb, ◌==◌,
  if◌then◌else◌, update, pos, negsuc,
}
use homeworks.Satellites.{
  SatelliteRequest, State, satellites, engineers, satellite_arrives, satellite_times_out,
}

-- `MAX_TIMEOUT`
abbrev pub max_timeout : ℕ
max_timeout = 10

-- Where a satellite's thread stands; `waiting` keeps the second of `timeout`, and `late` stands
-- between the test of the clock and the lock that follows it.
pub data SatellitePc : Type 0 where
  before : SatellitePc
  arrived : SatellitePc
  waiting : ℕ → SatellitePc
  late : SatellitePc
  ended : SatellitePc

-- Where an engineer's thread stands, with the request `req` it keeps; `popping` keeps the index of
-- the loop of `pop_from_queue` too, and `crashed` is the use of a NULL that `pop_from_queue` gave.
pub data EngineerPc : Type 0 where
  idle : EngineerPc
  woken : EngineerPc
  chosen : EngineerPc
  popping : ℕ → ℕ → EngineerPc
  crashed : EngineerPc
  holds : ℕ → EngineerPc
  serving : ℕ → EngineerPc
  finished : ℕ → EngineerPc
  closing : EngineerPc
  exited : EngineerPc

pub record Program : Type 0 where
  pub shared : State
  pub new_request : ℕ
  pub satellite_threads : ℕ → SatellitePc
  pub engineer_threads : ℕ → EngineerPc

unfoldable pub get_satellite_priority : ℕ → ℕ
get_satellite_priority rand = rand % satellites + 1

-- One round of the loop of `satellite`, up to the lock of a timeout.
unfoldable pub polled : State → ℕ → ℕ → ℕ → SatellitePc
polled s id now deadline =
    if (s.requests id).being_served
    then ended
    else if leb deadline now
    then late
    else waiting deadline

-- The test after `sem_wait`, and the one that follows where it fails.
unfoldable pub checked : State → EngineerPc
checked s =
    if ltb 0 s.queue_size && ltb 0 s.available_engineers
    then chosen
    else if s.queue_size == 0
    then exited
    else idle

-- The start of `pop_from_queue`: the test of the size, and the first pointer.
unfoldable pub peeked : State → EngineerPc
peeked s = if s.queue_size == 0 then crashed else popping (s.request_queue 0) 1

-- One round of its loop.
unfoldable pub moves_up : State → ℕ → State
moves_up s i = record s { request_queue = update s.request_queue (i - 1) (s.request_queue i) }

unfoldable pub engineer_serves : State → ℕ → ℕ → State
engineer_serves s id req = record s {
  available_engineers = s.available_engineers - 1;
  requests =
      update s.requests req (record (s.requests req) { being_served = true; engineer_id = pos id });
}

unfoldable pub engineer_finishes : State → State
engineer_finishes s = record s { available_engineers = s.available_engineers + 1 }

-- The end of a round: on an empty queue the engineer leaves its loop.
unfoldable pub engineer_leaves : State → EngineerPc
engineer_leaves s = if s.queue_size == 0 then closing else idle

-- A turn of one thread. What `rand` and the clock give is free. A critical section is one step. The
-- call of `pop_from_queue`, which takes no lock, is a step for its start, one for each round of its
-- loop and one for its end, so other threads come between. A run is followed up to an end of
-- `pop_from_queue` that would make the size -1.
pub data Step (p : Program) : Program → Type 0 where
  arrives :
      (id rand now : ℕ)
      → id < satellites
      → p.satellite_threads id ≡ before
      → Step p (record p {
        shared = satellite_arrives p.shared id (get_satellite_priority rand) now;
        satellite_threads = update p.satellite_threads id arrived;
      })
  posts :
      (id rand now : ℕ)
      → p.satellite_threads id ≡ arrived
      → Step p (record p {
        new_request = p.new_request + 1;
        satellite_threads =
            update p.satellite_threads id (waiting (now + (rand % max_timeout + 1)));
      })
  polls :
      (id now deadline : ℕ)
      → p.satellite_threads id ≡ waiting deadline
      → Step p (record p {
        satellite_threads = update p.satellite_threads id (polled p.shared id now deadline);
      })
  times_out :
      (id : ℕ)
      → p.satellite_threads id ≡ late
      → Step p (record p {
        shared = satellite_times_out p.shared id;
        satellite_threads = update p.satellite_threads id ended;
      })
  wakes :
      (e : ℕ)
      → e < engineers
      → p.engineer_threads e ≡ idle
      → 0 < p.new_request
      → Step p (record p {
        new_request = p.new_request - 1;
        engineer_threads = update p.engineer_threads e woken;
      })
  checks :
      (e : ℕ)
      → e < engineers
      → p.engineer_threads e ≡ woken
      → Step p (record p { engineer_threads = update p.engineer_threads e (checked p.shared) })
  peeks :
      (e : ℕ)
      → e < engineers
      → p.engineer_threads e ≡ chosen
      → Step p (record p { engineer_threads = update p.engineer_threads e (peeked p.shared) })
  shifts :
      (e req i : ℕ)
      → e < engineers
      → p.engineer_threads e ≡ popping req i
      → i < p.shared.queue_size
      → Step p (record p {
        shared = moves_up p.shared i;
        engineer_threads = update p.engineer_threads e (popping req (i + 1));
      })
  pops :
      (e req i : ℕ)
      → e < engineers
      → p.engineer_threads e ≡ popping req i
      → p.shared.queue_size ≤ i
      → 0 < p.shared.queue_size
      → Step p (record p {
        shared = record p.shared { queue_size = p.shared.queue_size - 1 };
        engineer_threads = update p.engineer_threads e (holds req);
      })
  serves :
      (e req : ℕ)
      → e < engineers
      → p.engineer_threads e ≡ holds req
      → Step p (record p {
        shared = engineer_serves p.shared e req;
        engineer_threads = update p.engineer_threads e (serving req);
      })
  finishes :
      (e req : ℕ)
      → e < engineers
      → p.engineer_threads e ≡ serving req
      → Step p (record p {
        shared = engineer_finishes p.shared;
        engineer_threads = update p.engineer_threads e (finished req);
      })
  leaves :
      (e req : ℕ)
      → e < engineers
      → p.engineer_threads e ≡ finished req
      → Step p
          (record p { engineer_threads = update p.engineer_threads e (engineer_leaves p.shared) })
  closes :
      (e : ℕ)
      → e < engineers
      → p.engineer_threads e ≡ closing
      → Step p (record p {
        new_request = p.new_request + (engineers - 1);
        engineer_threads = update p.engineer_threads e exited;
      })

pub data Reach (p : Program) : Program → Type 0 where
  here : Reach p p
  next : {q r : Program} → Reach p q → Step q r → Reach p r

-- What the pointers of the requests and of the queue point to before any satellite arrives.
abbrev no_request : SatelliteRequest
no_request = record {
  id = 0;
  priority = 0;
  arrival_time = 0;
  being_served = false;
  engineer_id = negsuc 0;
}

-- After `main` has made the threads.
unfoldable pub start : Program
start = record {
  shared = record {
    requests = λ _. no_request;
    request_queue = λ _. 0;
    queue_size = 0;
    available_engineers = engineers;
  };
  new_request = 0;
  satellite_threads = λ _. before;
  engineer_threads = λ _. idle;
}
