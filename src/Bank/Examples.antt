-- ===== src/Bank/Examples.antt =====
-- The theorems on the bank at concrete requests.
use homeworks.Prelude.{
  ℕ, List, update, ◌^◌, ◌<◌, ◌≡◌, refl, false, ◌==◌, if◌then◌else◌, [], ◌∷◌, ◌++◌, arith, text,
  CString, atoi, digits_value, isdigit, c_string, streq,
}
use homeworks.Bank.{Request, Bank, process_transaction, verify, is_numeric, assign_bankid}
use homeworks.Bank.Tellers.{Tellers, verified_pc, assigned_pc, is_deposit, exited, fork_tellers}
use homeworks.Bank.Race.{Withdraws, amount_of, process_transaction-withdraw}

abbrev request : CString → CString → Request
request id op = record {
  id = id ++ 0 ∷ [];
  op = op ++ 0 ∷ [];
  credit = text "100" ++ 0 ∷ [];
  fifo = text "f" ++ 0 ∷ [];
}

-- Accounts 1 and 2 with 500 each; clients 0 and 1 work on them.
abbrev two_accounts : Bank
two_accounts = record {
  response = λ _. [];
  requests = λ i. request (if i == 0 then text "BankID_1" else text "BankID_2") (text "deposit");
  accounts = λ i. record {
    id = i;
    deposits = if i == 1 then 500 else if i == 2 then 500 else 0;
    withdrawals = 0;
    balance = if i == 1 then 500 else if i == 2 then 500 else 0;
  };
  active = 2;
  b_id = 1;
  client_count = 0;
  replies = [];
}

atoi_run : atoi (text "4294967295") ≡ 4294967295
unfolding atoi text digits_value isdigit
atoi_run = refl

verify_run : verify (request (text "N") (text "deposit")) ≡ 0
unfolding verify text atoi digits_value isdigit is_numeric c_string streq
verify_run = refl

-- Two clients deposit on account 2 and on a new one; the second teller is assigned its account
-- before the first one transacts.
abbrev deposits : List Request
deposits = request (text "BankID_2") (text "deposit") ∷ request (text "N") (text "deposit") ∷ []

abbrev both_forked : Tellers
both_forked = fork_tellers two_accounts deposits

abbrev after_verifies : Tellers → ℕ → Tellers
after_verifies p idx = record p { pcs = update p.pcs idx (verified_pc (p.bank.requests idx)) }

abbrev after_assigns : Tellers → ℕ → Tellers
after_assigns p idx = record p {
  bank = (assign_bankid p.bank idx).1;
  pcs = update p.pcs idx (assigned_pc (assign_bankid p.bank idx).0);
}

abbrev after_transacts : Tellers → ℕ → Tellers
after_transacts p idx = record p {
  bank = (process_transaction p.bank idx (is_deposit p.bank idx)).1;
  pcs = update p.pcs idx exited;
}

abbrev both_assigned : Tellers
both_assigned = after_assigns (after_assigns (after_verifies (after_verifies both_forked 0) 1) 0) 1

amount_small : amount_of two_accounts 0 < 2 ^ 31
unfolding atoi text digits_value isdigit c_string
amount_small = omega arith

process_transaction-withdraw_example :
    Withdraws two_accounts 0 2 (process_transaction two_accounts 0 false)
process_transaction-withdraw_example =
    process_transaction-withdraw two_accounts 0 2 (omega arith) amount_small
