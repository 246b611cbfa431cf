-- ===== src/Satellites/Examples.antt =====
-- The theorems on the satellites at a concrete queue.
use homeworks.Prelude.{
  ℕ, ◌+◌, ◌≡◌, refl, ◌⊎◌, [], ◌∷◌, false, none, some, arith, ◌≤◌, ◌<◌, subst, negsuc, if◌then◌else◌,
  ◌==◌,
}
use homeworks.Satellites.{SatelliteRequest, State, add_to_queue, pop_from_queue, stays_before}
use homeworks.Satellites.Queue.{
  Before, IsSorted, contents, insert_request, add_to_queue-contents, intro_Before,
}
use homeworks.Satellites.Sorted.{pop_from_queue-contents}

-- Satellites 4 and 7 wait with priorities 2 and 5; satellite 1 comes with priority 2, later.
abbrev request : ℕ → SatelliteRequest
request i = record {
  id = i;
  priority = if i == 7 then 5 else 2;
  arrival_time = if i == 1 then 30 else 20;
  being_served = false;
  engineer_id = negsuc 0;
}

abbrev two_wait : State
two_wait = record {
  requests = request;
  request_queue = λ i. if i == 0 then 4 else 7;
  queue_size = 2;
  available_engineers = 3;
}

abbrev in_order : IsSorted request two_wait.request_queue 2
in_order = record { pairs = pairs_of }
  where
    pairs_of :
        (k : ℕ)
        → k + 1 < 2
        → Before (request (two_wait.request_queue k)) (request (two_wait.request_queue (k + 1)))
    pairs_of k h =
        subst
          (λ k.
            Before (request (two_wait.request_queue k)) (request (two_wait.request_queue (k + 1))))
          {x = 0} (omega arith) (intro_Before (request 4) (request 7) (omega arith))

reference_run : insert_request request 1 (4 ∷ 7 ∷ []) ≡ 4 ∷ 1 ∷ 7 ∷ []
unfolding insert_request stays_before
reference_run = refl

add_to_queue-contents_example :
    contents (add_to_queue two_wait 1) ≡ insert_request request 1 (contents two_wait)
add_to_queue-contents_example = add_to_queue-contents two_wait 1 in_order

pop_from_queue-contents_example :
    ((pop_from_queue two_wait ≡ none) × (two_wait.queue_size ≡ 0) × (contents two_wait ≡ []))
    ⊎ ((req : ℕ) × (t : State) × (pop_from_queue two_wait ≡ some (req, t))
        × (contents two_wait ≡ req ∷ contents t)
        × IsSorted t.requests t.request_queue t.queue_size
        × ((two_wait.queue_size ≤ 1) ⊎ Before (request req) (request 7)))
pop_from_queue-contents_example = pop_from_queue-contents two_wait 1 in_order
