-- ===== src/Satellites.antt =====
-- HW3 main.c: satellites that wait for an engineer in a queue ordered by priority.
pub mod Queue
pub mod Sorted
pub mod Removal
pub mod Threads
pub mod Examples
use homeworks.Prelude.{
  ℕ, zero, suc, ◌+◌, ◌-◌, Bool, true, false, not, ◌&&◌, ◌||◌, Option, none, some, ltb, leb, ◌==◌,
  if◌then◌else◌, update, first_from, ℤ, pos, negsuc,
}

-- `SATELLITES`, `ENGINEERS`
abbrev pub satellites : ℕ
satellites = 10

abbrev pub engineers : ℕ
engineers = 3

-- `priority_type` is never set or read. `add_to_queue` compares arrival times as `int`: they are
-- seconds below 2 ^ 31.
pub record SatelliteRequest : Type 0 where
  pub id : ℕ
  pub priority : ℕ
  pub arrival_time : ℕ
  pub being_served : Bool
  pub engineer_id : ℤ

-- Every satellite allocates one request, so its number serves as the pointer: `requests` is what
-- the pointers point to, `request_queue` holds pointers.
pub record State : Type 0 where
  pub requests : ℕ → SatelliteRequest
  pub request_queue : ℕ → ℕ
  pub queue_size : ℕ
  pub available_engineers : ℕ

-- The two tests that stop the loop of `add_to_queue`: r stays before the new request s.
unfoldable pub stays_before : SatelliteRequest → SatelliteRequest → Bool
stays_before r s =
    ltb r.priority s.priority || (r.priority == s.priority && leb r.arrival_time s.arrival_time)

-- The loop of `add_to_queue` with its index one higher: the place found and the shifted queue.
unfoldable pub shift_loop : (ℕ → SatelliteRequest) → SatelliteRequest → ℕ → (ℕ → ℕ) → ℕ × (ℕ → ℕ)
shift_loop requests new zero queue = (zero, queue)
shift_loop requests new (suc i) queue =
    let rest = shift_loop requests new i (update queue (suc i) (queue i)) in
    if stays_before (requests (queue i)) new then (suc i, queue) else rest

unfoldable pub add_to_queue : State → ℕ → State
unfolding shift_loop
add_to_queue s req =
    let (place, queue) = shift_loop s.requests (s.requests req) s.queue_size s.request_queue in
    record s { request_queue = update queue place req; queue_size = s.queue_size + 1 }

-- `for (int i = 1; i < queue_size; i++) requestQueue[i - 1] = requestQueue[i];`, n rounds from i.
unfoldable pub move_up : ℕ → ℕ → (ℕ → ℕ) → ℕ → ℕ
move_up i zero queue = queue
move_up i (suc n) queue = move_up (i + 1) n (update queue (i - 1) (queue i))

unfoldable pub pop_from_queue : State → Option (ℕ × State)
unfolding move_up
pop_from_queue s =
    if s.queue_size == 0
    then none
    else some (
      s.request_queue 0,
      record s {
        request_queue = move_up 1 (s.queue_size - 1) s.request_queue;
        queue_size = s.queue_size - 1;
      },
    )

-- A satellite before it waits: `priority` is what `rand` gives, `now` what `time` gives.
unfoldable pub satellite_arrives : State → ℕ → ℕ → ℕ → State
unfolding add_to_queue
satellite_arrives s id priority now =
    let req : SatelliteRequest = record {
      id = id;
      priority = priority;
      arrival_time = now;
      being_served = false;
      engineer_id = negsuc 0;
    } in
    add_to_queue (record s { requests = update s.requests id req }) id

-- `for (int j = i; j < queue_size - 1; j++) requestQueue[j] = requestQueue[j + 1];`
unfoldable pub close_gap : ℕ → ℕ → (ℕ → ℕ) → ℕ → ℕ
close_gap j zero queue = queue
close_gap j (suc n) queue = close_gap (j + 1) n (update queue j (queue (j + 1)))

-- The test of the loop after a timeout.
unfoldable pub is_waiting : State → ℕ → ℕ → Bool
is_waiting s id i =
    (s.requests (s.request_queue i)).id == id && not (s.requests (s.request_queue i)).being_served

-- A satellite after its timeout takes its request out of the queue, if it still stands there.
unfoldable pub satellite_times_out : State → ℕ → State
unfolding is_waiting close_gap
satellite_times_out s id = elim (first_from (is_waiting s id) 0 s.queue_size) [
  | none ↦ s
  | some i ↦ record s {
    request_queue = close_gap i (s.queue_size - 1 - i) s.request_queue;
    queue_size = s.queue_size - 1;
  }
]

pub data Poll : Type 0 where
  connected : Poll
  timed_out : Poll
  still_waiting : Poll

-- One round of the loop of `satellite`: `now` is what the clock gives, `deadline` the second at
-- which the satellite gives up.
unfoldable pub satellite_polls : State → ℕ → ℕ → ℕ → Poll × State
unfolding satellite_times_out
satellite_polls s id now deadline =
    if (s.requests id).being_served
    then (connected, s)
    else if leb deadline now
    then (timed_out, satellite_times_out s id)
    else (still_waiting, s)
