-- ===== src/Bank.antt =====
-- Midterm server.c: the bank server and its tellers over the shared memory. A teller is a process
-- of its own; each of its critical sections is one function here.
pub mod Tellers
pub mod Ledger
pub mod Race
pub mod Database
pub mod Examples
use homeworks.Prelude.{
  ℕ, ◌+◌, ◌-◌, ◌*◌, ◌%◌, ◌^◌, Bool, true, false, not, ◌&&◌, ◌||◌, List, [], ◌∷◌, ◌++◌, ltb, leb,
  ◌==◌, if◌then◌else◌, update, CString, text, streq, isdigit, drop, snprintf, c_string, atoi, pad2,
  decimal, ℤ, pos, negsuc, decimal_int, concat, zero, suc,
}

-- Each field is a whole array, with what stands behind its terminator.
pub record Request : Type 0 where
  pub id : List ℕ
  pub op : List ℕ
  pub credit : List ℕ
  pub fifo : List ℕ

-- The columns of `accounts`, as 32-bit words.
pub record Account : Type 0 where
  pub id : ℕ
  pub deposits : ℕ
  pub withdrawals : ℕ
  pub balance : ℕ

-- The shared memory and the server's count of clients. `replies` are the fifos written to and the
-- messages, the last one first.
pub record Bank : Type 0 where
  pub response : ℕ → CString
  pub requests : ℕ → Request
  pub accounts : ℕ → Account
  pub active : ℕ
  pub b_id : ℕ
  pub client_count : ℕ
  pub replies : List (CString × CString)

-- The arithmetic of `int`.
abbrev pub word_add : ℕ → ℕ → ℕ
word_add a b = (a + b) % 2 ^ 32

abbrev pub word_sub : ℕ → ℕ → ℕ
word_sub a b = (a + (2 ^ 32 - b)) % 2 ^ 32

abbrev pub is_negative : ℕ → Bool
is_negative a = leb (2 ^ 31) a

-- `a >= b`
abbrev pub word_ge : ℕ → ℕ → Bool
word_ge a b = leb ((b + 2 ^ 31) % 2 ^ 32) ((a + 2 ^ 31) % 2 ^ 32)

unfoldable pub word_text : ℕ → CString
unfolding decimal_int decimal
word_text a = decimal_int (if is_negative a then negsuc (2 ^ 32 - 1 - a) else pos a)

unfoldable pub is_numeric : CString → Bool
unfolding isdigit
is_numeric [] = true
is_numeric (c ∷ s) = if isdigit c then is_numeric s else false

-- The code that `verify` returns is minus this number.
unfoldable pub verify : Request → ℕ
unfolding is_numeric
verify r =
    let is_empty = λ (array : List ℕ). streq (c_string array) [] in
    if is_empty r.op || is_empty r.credit || is_empty r.id || is_empty r.fifo
    then 2
    else if not (streq (c_string r.op) (text "deposit"))
        && not (streq (c_string r.op) (text "withdraw"))
    then 3
    else if not (is_numeric (c_string r.credit))
    then 3
    else if is_negative (atoi (c_string r.credit))
    then 4
    else if streq (c_string (drop 7 r.id)) (text "None")
    then 5
    else 0

-- `msg_buffer` has 256 bytes.
unfoldable pub reply_client : Bank → List ℕ → CString → Bank
reply_client s path message = record s {
  replies = (c_string path, snprintf 256 message) ∷ s.replies;
}

unfoldable pub client_text : ℕ → CString
unfolding decimal
client_text idx = text "Client" ++ pad2 (decimal (idx + 1))

unfoldable pub set_account : Bank → ℕ → Account → Bank
set_account s id a = record s { accounts = update s.accounts id a }

unfoldable pub set_response : Bank → ℕ → CString → Bank
set_response s idx message = record s { response = update s.response idx (snprintf 256 message) }

-- The Boolean is false where the process exits.
unfoldable pub assign_bankid : Bank → ℕ → Bool × Bank
unfolding reply_client set_account
assign_bankid s idx =
    let r = s.requests idx in
    let new_id = s.active + 1 in
    let id = atoi (c_string (drop 7 r.id)) in
    if streq (c_string r.id) (text "N")
    then (
      true,
      set_account (record s { active = new_id; b_id = new_id }) new_id
          (record (s.accounts new_id) { id = new_id; balance = 0 }),
    )
    else if is_negative id || ltb s.active id
    then (
      false,
      reply_client s r.fifo
          (concat (client_text idx ∷ text " invalid bank ID, " ∷ word_text id ∷ [])),
    )
    else (true, record s { b_id = id })

unfoldable pub process_transaction : Bank → ℕ → Bool → Bool × Bank
unfolding reply_client set_account set_response
process_transaction s idx is_deposit =
    let r = s.requests idx in
    let amount = atoi (c_string r.credit) in
    let id = s.b_id in
    let a = s.accounts id in
    let client = client_text idx in
    let served = concat (client ∷ text " served.. BankID_" ∷ pad2 (word_text id) ∷ []) in
    let credits = λ (done : CString) (what : CString).
      concat (client ∷ done ∷ word_text amount ∷ text " credits.. " ∷ what ∷ []) in
    let paid_in =
      set_account s id
        (record a { balance = word_add a.balance amount; deposits = word_add a.deposits amount }) in
    let left = word_sub a.balance amount in
    let paid_out =
      set_account s id (record a { balance = left; withdrawals = word_add a.withdrawals amount }) in
    let reply = λ (t : Bank) (message : CString) (line : CString).
      set_response (reply_client t r.fifo message) idx line in
    if is_deposit
    then (true, reply paid_in served (credits (text " deposited ") (text "updating log")))
    else if word_ge a.balance amount
    then if left == 0
      then (
        true,
        reply paid_out (served ++ text "... account closed")
            (credits (text " withdraws ") (text "updating log Bye " ++ client)),
      )
      else (true, reply paid_out served (credits (text " withdraws ") (text "updating log")))
    else (
      false,
      reply s (client ++ text " something went WRONG..")
          (credits (text " withdraws ") (text "operation not permitted")),
    )

-- The answer to a request that `verify` turns down.
unfoldable pub turn_down : Bank → ℕ → Bank
unfolding reply_client set_response
turn_down s id =
    let r = s.requests id in
    reply_client
      (set_response s id (
        concat (
          client_text id
          ∷ text " "
          ∷ c_string r.op
          ∷ text " "
          ∷ word_text (atoi (c_string r.credit))
          ∷ text " credits.. something went WRONG"
          ∷ [])))
      r.fifo (client_text id ++ text " served.. something went WRONG")

-- `bank_loop` for a batch of requests that are all read: each is stored and announced, and counted.
unfoldable pub connect : Bank → ℕ → ℕ → List Request → Bank
unfolding reply_client
connect s base_id i [] = s
connect s base_id i (r ∷ rs) =
    let idx = i + base_id in
    let s1 : Bank = record s {
      client_count = s.client_count + 1;
      requests = update s.requests idx r;
    } in
    let message = concat (
      client_text idx
      ∷ text " connected.. "
      ∷ c_string r.op
      ∷ text "ing "
      ∷ word_text (atoi (c_string r.credit))
      ∷ text " credits"
      ∷ []) in
    connect (reply_client s1 r.fifo message) base_id (i + 1) rs

-- The lines of `write_log`, n of them from account i; each keeps 255 bytes.
unfoldable pub log_lines : Bank → ℕ → ℕ → List CString
log_lines s i zero = text "## end of log." ∷ []
log_lines s i (suc n) =
    snprintf 256 (
      concat (
        text "BankID_"
        ∷ pad2 (word_text i)
        ∷ text " D "
        ∷ word_text (s.accounts i).deposits
        ∷ text " W "
        ∷ word_text (s.accounts i).withdrawals
        ∷ text " "
        ∷ word_text (s.accounts i).balance
        ∷ []))
    ∷ log_lines s (i + 1) n

unfoldable pub write_log : Bank → List CString
unfolding log_lines
write_log s = log_lines s 1 s.active
