-- ===== src/LogAnalyzer/Buffer.antt =====
-- buffer.c and buffer.h: the circular buffer. A call that has to wait for another thread is `none`;
-- it runs again when a signal wakes it, so its loop around `pthread_cond_wait` is the repetition
-- of the call.
pub mod Fifo
use homeworks.Prelude.{
  ℕ, zero, suc, ◌+◌, ◌-◌, ◌%◌, List, [], ◌∷◌, Bool, true, false, ◌&&◌, not, Option, none, some,
  CString, update, ◌==◌, if◌then◌else◌,
}

-- `lines` holds the strings that the array points to.
pub record Buffer : Type 0 where
  pub lines : ℕ → CString
  pub capacity : ℕ
  pub size : ℕ
  pub head : ℕ
  pub tail : ℕ
  pub eof : Bool

unfoldable pub buffer_init : ℕ → Buffer
buffer_init capacity = record {
  lines = λ _. [];
  capacity = capacity;
  size = 0;
  head = 0;
  tail = 0;
  eof = false;
}

unfoldable pub buffer_put : Buffer → CString → Option Buffer
buffer_put b line =
    if b.size == b.capacity && not b.eof
    then none
    else if b.eof
    then some b
    else some (record b {
      lines = update b.lines b.tail line;
      tail = (b.tail + 1) % b.capacity;
      size = b.size + 1;
    })

-- The line is `none` for NULL.
unfoldable pub buffer_get : Buffer → Option (Option CString × Buffer)
buffer_get b =
    if b.size == 0 && not b.eof
    then none
    else if b.size == 0 && b.eof
    then some (none, b)
    else some
        (some (b.lines b.head), record b { head = (b.head + 1) % b.capacity; size = b.size - 1 })

unfoldable pub buffer_set_eof : Buffer → Buffer
buffer_set_eof b = record b { eof = true }

-- The slots whose strings `buffer_destroy` frees, in its order.
unfoldable pub freed_slots : Buffer → ℕ → ℕ → List ℕ
freed_slots b i zero = []
freed_slots b i (suc n) = (b.head + i) % b.capacity ∷ freed_slots b (i + 1) n

unfoldable pub buffer_destroy : Buffer → List ℕ
unfolding freed_slots
buffer_destroy b = freed_slots b 0 b.size
