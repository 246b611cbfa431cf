-- ===== src/LogAnalyzer/Threads/Total.antt =====
-- Whatever the order in which the threads take turns, the total is that of the file.
use homeworks.Prelude.{ℕ, ◌+◌, ◌≡◌, List, [], ◌∷◌, true, CString}
use homeworks.LogAnalyzer.Buffer.{Buffer}
use homeworks.LogAnalyzer.Buffer.Fifo.{IsBuffer, contents}
use homeworks.LogAnalyzer.Search.{count_matches}
use homeworks.LogAnalyzer.Threads.{Program, total_matches}

-- The matches in a list of lines.
abbrev pub matches_in : CString → List CString → ℕ
matches_in term [] = 0
matches_in term (l ∷ ls) = count_matches l term + matches_in term ls

-- What holds between the steps: the matches counted, waiting and still to come make up the file's;
-- the end is announced when nothing is left to put; a worker ends when the buffer is drained.
record Inv (term : CString) (n : ℕ) (file : List CString) (p : Program) : Type 0 where
  in_order : IsBuffer p.buffer
  made_up :
      total_matches p.local_matches 0 n
        + matches_in term (contents p.buffer)
        + matches_in term p.todo
      ≡ matches_in term file
  announced : p.buffer.eof ≡ true → p.todo ≡ []
  drained : (w : ℕ) → p.ended w ≡ true → (p.buffer.eof ≡ true) × (contents p.buffer ≡ [])
