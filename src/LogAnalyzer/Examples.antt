-- ===== src/LogAnalyzer/Examples.antt =====
-- The theorems on the log analyzer at concrete inputs.
use homeworks.Prelude.{
  ◌≡◌, refl, ◌⊎◌, List, [], ◌∷◌, ◌++◌, Bool, true, false, none, some, CString, text, starts_with,
  ◌==◌, if◌then◌else◌, length, concat, arith,
}
use homeworks.LogAnalyzer.Buffer.{Buffer, buffer_put, buffer_get, buffer_set_eof}
use homeworks.LogAnalyzer.Buffer.Fifo.{IsBuffer, contents, buffer_put-contents, buffer_get-contents}
use homeworks.LogAnalyzer.Search.{count_matches, read_lines}
use homeworks.LogAnalyzer.Search.Matches.{places, count_matches-eq-places}
use homeworks.LogAnalyzer.Search.Lines.{AllFit, concat-read_lines, read_lines-AllFit}
use homeworks.LogAnalyzer.Threads.{
  Program, start, manager_puts, manager_ends, worker_gets, Reach, here, next, worker_got,
}

-- Two lines wait, round the end of three slots.
abbrev wrapped : Buffer
wrapped = record {
  lines = λ i. if i == 2 then text "first" else text "second";
  capacity = 3;
  size = 2;
  head = 2;
  tail = 1;
  eof = false;
}

count_run : count_matches (text "aaa") (text "aa") ≡ 2
unfolding count_matches text starts_with
count_run = refl

buffer_put-contents_example :
    ((buffer_put wrapped (text "third") ≡ none)
      × (◌≡◌ {A = Bool} false false)
      × (length (contents wrapped) ≡ 3))
    ⊎ (((buffer_put wrapped (text "third") ≡ some wrapped) × (false ≡ true))
        ⊎ ((t : Buffer) × (buffer_put wrapped (text "third") ≡ some t)
            × (◌≡◌ {A = Bool} false false)
            × (t.eof ≡ false)
            × (contents t ≡ contents wrapped ++ text "third" ∷ [])
            × IsBuffer t))
buffer_put-contents_example = buffer_put-contents wrapped (text "third") (omega arith)

buffer_get-contents_example :
    ((buffer_get wrapped ≡ none) × (◌≡◌ {A = Bool} false false) × (contents wrapped ≡ []))
    ⊎ (((buffer_get wrapped ≡ some (none, wrapped)) × (false ≡ true) × (contents wrapped ≡ []))
        ⊎ ((line : CString) × (t : Buffer) × (buffer_get wrapped ≡ some (some line, t))
            × (t.eof ≡ false)
            × (contents wrapped ≡ line ∷ contents t)
            × IsBuffer t))
buffer_get-contents_example = buffer_get-contents wrapped (omega arith)

count_matches-eq-places_example :
    count_matches (text "aaa") (text "aa") ≡ places (text "aaa") (text "aa")
unfolding text
count_matches-eq-places_example = count_matches-eq-places (text "aaa") (text "aa") (λ e. cc)

concat-read_lines_example : concat (read_lines 5 (97 ∷ 10 ∷ 98 ∷ [])) ≡ 97 ∷ 10 ∷ 98 ∷ []
concat-read_lines_example = concat-read_lines 5 (97 ∷ 10 ∷ 98 ∷ []) (omega arith)

read_lines-AllFit_example : AllFit (read_lines 5 (97 ∷ 10 ∷ 98 ∷ []))
read_lines-AllFit_example = read_lines-AllFit 5 (97 ∷ 10 ∷ 98 ∷ [])

-- One line, one worker: the manager puts the line and ends, the worker takes it and then NULL.
abbrev file : List CString
file = text "aaa" ∷ []

abbrev put_one : Program
put_one = record (start 1 file) {
  buffer = record (start 1 file).buffer {
    lines = λ j. if 0 == j then text "aaa" else [];
    tail = 0;
    size = 1;
  };
  todo = [];
}

abbrev at_end : Program
at_end = record put_one { buffer = buffer_set_eof put_one.buffer; manager_done = true }

abbrev drained_buffer : Buffer
drained_buffer = record at_end.buffer { head = 0; size = 0 }

abbrev took_one : Program
took_one = worker_got (text "aa") at_end 0 (some (text "aaa")) drained_buffer

abbrev finished : Program
finished = worker_got (text "aa") took_one 0 none drained_buffer

run : Reach (text "aa") 1 (start 1 file) finished
unfolding start buffer_put buffer_get buffer_set_eof worker_got
run =
    next
      (next
        (next (next here (manager_puts (text "aaa") [] put_one.buffer refl refl refl))
          (manager_ends refl refl))
        (worker_gets 0 (some (text "aaa")) drained_buffer (omega arith) refl refl refl))
      (worker_gets 0 none drained_buffer (omega arith) refl refl refl)
