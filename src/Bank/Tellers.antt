-- ===== src/Bank/Tellers.antt =====
-- Midterm server.c: the tellers of one batch. The server forks a process for each request of the
-- batch and then waits for all of them, so they run side by side on the shared memory.
use homeworks.Prelude.{
  ℕ, ◌+◌, ◌<◌, ◌≤◌, ◌≡◌, Bool, ◌&&◌, List, length, ltb, leb, ◌==◌, if◌then◌else◌, update, text,
  streq, c_string,
}
use homeworks.Bank.{Request, Bank, verify, turn_down, assign_bankid, process_transaction, connect}

-- `MAX_CLI`, `MAX_REQ`
abbrev pub max_cli : ℕ
max_cli = 1000

abbrev pub max_req : ℕ
max_req = 1000

-- Where a teller stands: before `verify`, before the answer to a request that is turned down, before
-- `assign_bankid`, before `process_transaction`, and after its exit. A number that no teller has
-- stands as `exited` too.
pub data TellerPc : Type 0 where
  forked : TellerPc
  turned_down : TellerPc
  verified : TellerPc
  assigned : TellerPc
  exited : TellerPc

pub record Tellers : Type 0 where
  pub bank : Bank
  pub pcs : ℕ → TellerPc

unfoldable pub verified_pc : Request → TellerPc
verified_pc r = if verify r == 0 then verified else turned_down

unfoldable pub assigned_pc : Bool → TellerPc
assigned_pc found = if found then assigned else exited

-- The task of a teller: `handle_deposit`, or `handle_withdraw`.
unfoldable pub is_deposit : Bank → ℕ → Bool
is_deposit s idx = streq (c_string (s.requests idx).op) (text "deposit")

-- A turn of one teller: each of its sections between `sem_wait` and `sem_post` is one step. Account
-- numbers are followed as far as the table goes.
pub data Step (p : Tellers) : Tellers → Type 0 where
  verifies :
      (idx : ℕ)
      → p.pcs idx ≡ forked
      → Step p (record p { pcs = update p.pcs idx (verified_pc (p.bank.requests idx)) })
  turns_down :
      (idx : ℕ)
      → p.pcs idx ≡ turned_down
      → Step p (record p { bank = turn_down p.bank idx; pcs = update p.pcs idx exited })
  assigns :
      (idx : ℕ)
      → p.pcs idx ≡ verified
      → p.bank.active + 1 < max_cli
      → Step p (record p {
        bank = (assign_bankid p.bank idx).1;
        pcs = update p.pcs idx (assigned_pc (assign_bankid p.bank idx).0);
      })
  transacts :
      (idx : ℕ)
      → p.pcs idx ≡ assigned
      → Step p (record p {
        bank = (process_transaction p.bank idx (is_deposit p.bank idx)).1;
        pcs = update p.pcs idx exited;
      })

-- The batch once its requests are stored and its tellers forked.
unfoldable pub fork_tellers : Bank → List Request → Tellers
unfolding connect
fork_tellers s rs = record {
  bank = connect s s.client_count 0 rs;
  pcs = λ i. if leb s.client_count i && ltb i (s.client_count + length rs) then forked else exited;
}

-- The runs of a batch that fits the table of requests.
pub data Batch (s : Bank) (rs : List Request) : Tellers → Type 0 where
  forks : s.client_count + length rs ≤ max_req → Batch s rs (fork_tellers s rs)
  next : {p q : Tellers} → Batch s rs p → Step p q → Batch s rs q
