-- ===== src/Bank/Ledger.antt =====
-- The accounts: what was paid in is what was paid out and what is left.
use homeworks.Prelude.{ℕ, ◌+◌, ◌%◌, ◌^◌, ◌<◌, ◌≤◌, ◌≡◌}
use homeworks.Bank.{Account, Bank}
use homeworks.Bank.Tellers.{Tellers}

-- In the arithmetic of 32-bit words.
abbrev pub Balances : Account → Type 0
Balances a = (a.balance + a.withdrawals) % 2 ^ 32 ≡ a.deposits % 2 ^ 32

-- Every account balances, those not yet given out have no movements, and the account that a
-- teller works on is given out.
pub record HoldsBooks (accounts : ℕ → Account) (active b_id : ℕ) : Type 0 where
  pub balances : (i : ℕ) → Balances (accounts i)
  pub fresh_deposits : (i : ℕ) → active < i → (accounts i).deposits ≡ 0
  pub fresh_withdrawals : (i : ℕ) → active < i → (accounts i).withdrawals ≡ 0
  pub current : b_id ≤ active

abbrev pub IsLedger : Bank → Type 0
IsLedger s = HoldsBooks s.accounts s.active s.b_id
