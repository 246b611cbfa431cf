-- ===== src/LogAnalyzer/Threads.antt =====
-- main.c: the manager and the workers as threads that take turns. One step of the program is one
-- call of the buffer that does not wait, with what its thread does by itself before the next one.
-- SIGINT may stop both kinds of thread; the steps below are those of a run without it.
pub mod Total
use homeworks.Prelude.{
  ℕ, zero, suc, ◌+◌, ◌<◌, ◌≡◌, List, [], ◌∷◌, Bool, true, false, Option, none, some, CString,
  update, if◌then◌else◌, ◌==◌,
}
use homeworks.LogAnalyzer.Buffer.{Buffer, buffer_init, buffer_put, buffer_get, buffer_set_eof}
use homeworks.LogAnalyzer.Search.{count_matches}

-- `todo` holds the strings that the manager has still to put, `manager_done` that it has announced
-- the end of the file; `local_matches` and `ended` are the workers', by their number.
pub record Program : Type 0 where
  pub buffer : Buffer
  pub todo : List CString
  pub manager_done : Bool
  pub local_matches : ℕ → ℕ
  pub ended : ℕ → Bool

unfoldable pub start : ℕ → List CString → Program
unfolding buffer_init
start capacity file = record {
  buffer = buffer_init capacity;
  todo = file;
  manager_done = false;
  local_matches = λ _. 0;
  ended = λ _. false;
}

-- A worker that gets a line adds its matches; one that gets NULL leaves its loop.
unfoldable pub worker_got : CString → Program → ℕ → Option CString → Buffer → Program
worker_got term p w none b = record p { buffer = b; ended = update p.ended w true }
worker_got term p w (some line) b = record p {
  buffer = b;
  local_matches = update p.local_matches w (p.local_matches w + count_matches line term);
}

-- The steps of a program with `worker_num` workers.
pub data Step (term : CString) (worker_num : ℕ) (p q : Program) : Type 0 where
  manager_puts :
      (line : CString) (rest : List CString) (b : Buffer)
      → p.todo ≡ line ∷ rest
      → buffer_put p.buffer line ≡ some b
      → q ≡ record p { buffer = b; todo = rest }
      → Step term worker_num p q
  manager_ends :
      p.todo ≡ []
      → q ≡ record p { buffer = buffer_set_eof p.buffer; manager_done = true }
      → Step term worker_num p q
  worker_gets :
      (w : ℕ) (got : Option CString) (b : Buffer)
      → w < worker_num
      → p.ended w ≡ false
      → buffer_get p.buffer ≡ some (got, b)
      → q ≡ worker_got term p w got b
      → Step term worker_num p q

pub data Reach (term : CString) (worker_num : ℕ) (p : Program) : Program → Type 0 where
  here : Reach term worker_num p p
  next :
      {q r : Program}
      → Reach term worker_num p q
      → Step term worker_num q r
      → Reach term worker_num p r

-- The sum that the last thread at the barrier prints: `i` counts up over `n` workers.
unfoldable pub total_matches : (ℕ → ℕ) → ℕ → ℕ → ℕ
total_matches matches i zero = 0
total_matches matches i (suc n) = matches i + total_matches matches (i + 1) n
