-- ===== src/Bank/Database.antt =====
-- Midterm server.c: load_db, which reads the accounts from Bank.log.
pub mod Scanning
pub mod Numbered
pub mod Lines
pub mod Text
pub mod Files
pub mod Restart
pub mod Examples
use homeworks.Prelude.{
  ℕ, zero, suc, ◌+◌, ◌-◌, ◌%◌, ◌^◌, Bool, true, false, not, List, [], ◌∷◌, ◌++◌, map, keep, take,
  drop, Option, none, some, ltb, ◌==◌, if◌then◌else◌, update, CString, text, isdigit, digits_value,
  clamp, c_string, concat,
}
use homeworks.Machine.Lexer.{isspace}
use homeworks.Machine.Parser.{◌>>=◌}
use homeworks.School.{skip_spaces}
use homeworks.Catalog.{split}
use homeworks.Bank.{Account, Bank, is_negative, write_log}

-- The digits in front of a text, and what follows them.
unfoldable pub take_digits : CString → CString × CString
unfolding isdigit
take_digits [] = ([], [])
take_digits (c ∷ s) =
    let rest = take_digits s in if isdigit c then (c ∷ rest.0, rest.1) else ([], c ∷ s)

abbrev pub with_digits : (ℕ → ℕ) → CString × CString → Option (ℕ × CString)
with_digits f ([], rest) = none
with_digits f (c ∷ s, rest) = some (f (digits_value (c ∷ s) 0), rest)

-- `%d` once white space is skipped: a number clamped to 64 bits and truncated to an `int`, and what
-- follows it.
unfoldable pub scan_number : CString → Option (ℕ × CString)
unfolding take_digits digits_value
scan_number [] = none
scan_number (c ∷ s) =
    if c == b'-'
    then with_digits (λ n. (2 ^ 64 - clamp (2 ^ 63) n) % 2 ^ 32) (take_digits s)
    else if c == b'+'
    then with_digits (λ n. clamp (2 ^ 63 - 1) n % 2 ^ 32) (take_digits s)
    else with_digits (λ n. clamp (2 ^ 63 - 1) n % 2 ^ 32) (take_digits (c ∷ s))

unfoldable pub scan_int : CString → Option (ℕ × CString)
unfolding scan_number skip_spaces
scan_int s = scan_number (skip_spaces s)

-- `%02d`: two characters at most.
unfoldable pub scan_two : CString → Option (ℕ × CString)
unfolding scan_number skip_spaces
scan_two s =
    let t = skip_spaces s in
    elim (scan_number (take 2 t)) [ none ↦ none | some (v, rest) ↦ some (v, rest ++ drop 2 t) ]

-- The other characters of a format; a space stands for any white space.
unfoldable pub scan_text : CString → CString → Option CString
unfolding skip_spaces
scan_text [] s = some s
scan_text (c ∷ format) s =
    let after_space = scan_text format (skip_spaces s) in
    if isspace c
    then after_space
    else elim s [ [] ↦ none | d ∷ rest ↦ if c == d then scan_text format rest else none ]

-- `sscanf (line, "BankID_%02d D %d W %d %d", &id, &deposit, &withdraw, &balance)`, where it gives 4.
unfoldable pub scan_line : CString → Option (ℕ × Account)
unfolding scan_text scan_two scan_int
scan_line line = do
  s1 ← scan_text (text "BankID_") line
  (id, s2) ← scan_two s1
  s3 ← scan_text (text " D ") s2
  (deposit, s4) ← scan_int s3
  s5 ← scan_text (text " W ") s4
  (withdraw, s6) ← scan_int s5
  s7 ← scan_text (text " ") s6
  (balance, _) ← scan_int s7
  some (id, record { id = id; deposits = deposit; withdrawals = withdraw; balance = balance })

-- What is done with the numbers of a line; `none` is a write in front of the array of accounts.
unfoldable pub load_account : Bank → Option (ℕ × Account) → Option Bank
load_account s none = some s
load_account s (some (id, a)) =
    if is_negative id
    then none
    else some (record s {
      accounts = update s.accounts id a;
      active = if ltb s.active id then id else s.active;
    })

unfoldable pub load_line : Bank → CString → Option Bank
unfolding load_account scan_line
load_line s [] = some s
load_line s (c ∷ line) = if c == b'#' then some s else load_account s (scan_line (c ∷ line))

-- The loop over strtok.
unfoldable pub load_lines : Bank → List CString → Option Bank
unfolding load_line
load_lines s [] = some s
load_lines s (line ∷ lines) = elim (load_line s line) [ none ↦ none | some t ↦ load_lines t lines ]

abbrev pub is_line : CString → Bool
is_line [] = false
is_line (c ∷ s) = true

-- What `strtok` cuts at the newlines: the pieces that are not empty.
unfoldable pub strtok_lines : CString → List CString
unfolding split
strtok_lines s = keep is_line (split 10 s)

-- `load_db` where Bank.log can be opened, on its bytes.
unfoldable pub load_db : Bank → CString → Option Bank
unfolding load_lines strtok_lines c_string
load_db s file = load_lines s (strtok_lines (c_string (take 4095 file)))

-- The bytes that `write_log` leaves in Bank.log.
unfoldable pub log_file : Bank → CString
unfolding write_log concat
log_file s = concat (map (λ line. line ++ 10 ∷ []) (write_log s))
