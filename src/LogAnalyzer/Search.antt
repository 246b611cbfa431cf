-- ===== src/LogAnalyzer/Search.antt =====
-- main.c: reading the lines of the log file, and counting the matches in a line.
pub mod Matches
pub mod Lines
use homeworks.Prelude.{
  ℕ, zero, suc, ◌+◌, ◌-◌, List, [], ◌∷◌, Bool, true, false, Option, none, some, CString, length,
  drop, starts_with, ◌==◌, if◌then◌else◌, c_string, strstr,
}

-- `MAX_LINE_LENGTH`
abbrev pub max_line_length : ℕ
max_line_length = 1024

-- The loop of `read_line` over the bytes that `read` delivers, with `n` places left in the array:
-- the bytes stored, and those left in the file. A call of `read` that a signal interrupts is made
-- again, and the file ends where `read` returns no byte.
unfoldable pub read_loop : ℕ → List ℕ → List ℕ × List ℕ
read_loop zero file = ([], file)
read_loop (suc n) [] = ([], [])
read_loop (suc n) (c ∷ file) =
    let (line, rest) = read_loop n file in if c == 10 then (c ∷ [], file) else (c ∷ line, rest)

unfoldable pub read_line : ℕ → List ℕ → List ℕ × List ℕ
unfolding read_loop
read_line max_len file = read_loop (max_len - 1) file

-- `if (len > 0 && line[len-1] == '\n') line[len-1] = '\0';`
unfoldable pub strip_newline : CString → CString
strip_newline [] = []
strip_newline (c ∷ []) = if c == 10 then [] else c ∷ []
strip_newline (c ∷ d ∷ ds) = c ∷ strip_newline (d ∷ ds)

-- The string that `manager_thread` puts into the buffer.
unfoldable pub line_string : List ℕ → CString
unfolding c_string strip_newline
line_string line = strip_newline (c_string line)

-- The loop of `manager_thread` while it is not told to stop: what each call of `read_line` gives,
-- until one gives no byte. The fuel bounds the number of lines.
unfoldable pub read_lines : ℕ → List ℕ → List (List ℕ)
unfolding read_line
read_lines zero file = []
read_lines (suc fuel) file =
    let out = read_line max_line_length file in
    let rest = read_lines fuel out.1 in if length out.0 == 0 then [] else out.0 ∷ rest

-- The loop of `worker_thread` over the matches in one line, with fuel.
unfoldable pub match_loop : ℕ → CString → CString → ℕ
unfolding strstr
match_loop zero s term = 0
match_loop (suc fuel) s term = elim (strstr s term) [
  | none ↦ 0
  | some found ↦ suc (match_loop fuel (drop 1 found) term)
]

unfoldable pub count_matches : CString → CString → ℕ
unfolding match_loop
count_matches line term = match_loop (length line + 1) line term
