-- ===== src/Chat/FileQueue.antt =====
-- The ring of file transfers and its semaphores against a queue of at most five requests.
use homeworks.Prelude.{
  ℕ, zero, suc, ◌+◌, ◌-◌, ◌%◌, ◌≤◌, ◌<◌, ◌≡◌, refl, ap, ◌∙◌, inl, inr, ◌⊎◌, List, [], ◌∷◌, ◌++◌,
  true, false, CString, length, take, update, ltb, ◌==◌, if◌then◌else◌, Bool-cases, arith, ℤ,
}
use homeworks.Chat.{Server, FileTransferRequest, max_file_queue, buffer_size}
use homeworks.Chat.Files.{enqueue_request, announce_full, add_to_file_queue}

-- The `n` requests from the slot `h` on, going round.
abbrev pub window : (ℕ → FileTransferRequest) → ℕ → ℕ → List FileTransferRequest
window f h zero = []
window f h (suc n) = f h ∷ window f ((h + 1) % max_file_queue) n

-- The requests that wait, oldest first.
abbrev pub waiting : Server → List FileTransferRequest
waiting s = window s.file_queue s.queue_head s.queue_size

-- Between two steps the semaphores count the free and the filled slots.
pub record IsQueue (s : Server) : Type 0 where
  pub head_in : s.queue_head < max_file_queue
  pub size_in : s.queue_size ≤ max_file_queue
  pub tail_at : s.queue_tail ≡ (s.queue_head + s.queue_size) % max_file_queue
  pub empty_count : s.empty_slots + s.queue_size ≡ max_file_queue
  pub filled_count : s.filled_slots ≡ s.queue_size

length-window : (f : ℕ → FileTransferRequest) (h n : ℕ) → length (window f h n) ≡ n
length-window f h zero = refl
length-window f h (suc n) = ap suc (length-window f ((h + 1) % max_file_queue) n)

-- A write to a slot beyond the window leaves it alone.
window-update :
    (f : ℕ → FileTransferRequest) (k : ℕ) (v : FileTransferRequest) (h m : ℕ)
    → h < max_file_queue
    → k < max_file_queue
    → m ≤ (k + max_file_queue - h) % max_file_queue
    → window (update f k v) h m ≡ window f h m
window-update f k v h zero a b c = refl
window-update f k v h (suc m) a b c =
    let miss : (k == h) ≡ false = ground arith in
    rw miss (
      ap (◌∷◌ (f h))
        (window-update f k v ((h + 1) % max_file_queue) m (omega arith) b (omega arith)))

window-snoc :
    (f : ℕ → FileTransferRequest) (h n : ℕ)
    → h < max_file_queue
    → window f h (suc n) ≡ window f h n ++ f ((h + n) % max_file_queue) ∷ []
window-snoc f h zero a = let here : (h + 0) % max_file_queue ≡ h = omega arith in rw here refl
window-snoc f h (suc n) a =
    let next : ((h + 1) % max_file_queue + n) % max_file_queue ≡ (h + suc n) % max_file_queue =
      omega arith in
    ap (◌∷◌ (f h)) (rw next at (window-snoc f ((h + 1) % max_file_queue) n (omega arith)))

-- A write to the slot just past the window makes it longer by that request.
window-push :
    (f : ℕ → FileTransferRequest) (h n k : ℕ) (r : FileTransferRequest)
    → h < max_file_queue
    → n < max_file_queue
    → k ≡ (h + n) % max_file_queue
    → window (update f k r) h (suc n) ≡ window f h n ++ r ∷ []
window-push f h n k r a b e =
    let hit : update f k r ((h + n) % max_file_queue) ≡ r = ground arith in
    let rest = window-update f k r h n a (omega arith) (omega arith) in
    window-snoc (update f k r) h n a ∙ rw (hit, rest) refl

-- The request that `add_to_file_queue` makes.
abbrev pub request_of : ℕ → ℕ → CString → ℤ → ℕ → FileTransferRequest
request_of sender receiver filename file_size now = record {
  sender = sender;
  receiver = receiver;
  filename = take (buffer_size - 1) filename;
  file_size = file_size;
  queue_time = now;
  active = true;
}

enqueue-waiting :
    (s : Server) (i j : ℕ) (f : CString) (size : ℤ) (now : ℕ)
    → IsQueue s
    → 0 < s.empty_slots
    → let t = enqueue_request (record s { empty_slots = s.empty_slots - 1 }) i j f size now in
      IsQueue t × (waiting t ≡ waiting s ++ request_of i j f size now ∷ [])
unfolding enqueue_request
enqueue-waiting s i j f size now q free =
    let r = request_of i j f size now in
    let grow : s.queue_size + 1 ≡ suc s.queue_size = omega arith in
    (
      record {
        head_in = q.head_in;
        size_in = omega (arith, q.empty_count);
        tail_at = omega (arith, q.tail_at);
        empty_count = omega (arith, q.empty_count);
        filled_count = omega (arith, q.filled_count);
      },
      rw grow (
          window-push s.file_queue s.queue_head s.queue_size s.queue_tail r q.head_in
            (omega (arith, q.empty_count)) q.tail_at),
    )

-- The state in which a slot is looked for last: at once, or after the wait.
abbrev pub slot_state : (Server → Server) → Server → ℕ → Server
slot_state others s i = if ltb 0 s.empty_slots then s else others (announce_full s i)

-- If what the other threads do during the wait keeps the ring a queue, so does
-- `add_to_file_queue`. Where it returns 1 the request has joined the end of the queue, behind what
-- waits when a slot is found; where it returns 0 five requests still wait after the 20 seconds,
-- and they stay.
pub add_to_file_queue-waiting :
    (others : Server → Server) (s : Server) (i j : ℕ) (f : CString) (size : ℤ) (now : ℕ)
    → ((t : Server) → IsQueue t → IsQueue (others t))
    → IsQueue s
    → let (added, t) = add_to_file_queue others s i j f size now in
      let base = slot_state others s i in
      IsQueue t
      × (((added ≡ true) × (waiting t ≡ waiting base ++ request_of i j f size now ∷ []))
          ⊎ ((added ≡ false) × (waiting t ≡ waiting base) × (length (waiting t) ≡ max_file_queue)))
unfolding add_to_file_queue
add_to_file_queue-waiting others s i j f size now keeps q =
    let s1 = others (announce_full s i) in
    let q1 : IsQueue s1 = keeps (announce_full s i) (omega (arith, q)) in
    elim (Bool-cases (ltb 0 s.empty_slots)) [
      | inl free ↦
          let out = enqueue-waiting s i j f size now q (ground arith) in
          rw free (out.0, inl (refl, out.1))
      | inr full ↦ elim (Bool-cases (ltb 0 s1.empty_slots)) [
        | inl freed ↦
            let out = enqueue-waiting s1 i j f size now q1 (ground arith) in
            rw (full, freed) (out.0, inl (refl, out.1))
        | inr still ↦
            rw (full, still)
              (
                omega (arith, q1),
                inr (
                  refl,
                  refl,
                  length-window s1.file_queue s1.queue_head s1.queue_size
                      ∙ ground (arith, q1.empty_count),
                ),
              )
      ]
    ]
