-- ===== src/Bank/Database/Examples.antt =====
-- The theorem on the restart at a bank of two accounts, and an account that is lost.
use homeworks.Prelude.{
  ℕ, ◌≤◌, ◌≡◌, refl, [], some, none, ◌==◌, if◌then◌else◌, arith, text, length, pad2, pad2,
}
use homeworks.Bank.{Bank, write_log, word_text}
use homeworks.Bank.Database.{load_db, scan_line, log_file}
use homeworks.Bank.Database.Files.{AreWords}
use homeworks.Bank.Database.Restart.{Found, least, load_db-log_file}

abbrev new_server : Bank
new_server = record {
  response = λ _. [];
  requests = λ _. record { id = []; op = []; credit = []; fifo = [] };
  accounts = λ _. record { id = 0; deposits = 0; withdrawals = 0; balance = 0 };
  active = 0;
  b_id = 0;
  client_count = 0;
  replies = [];
}

abbrev two_accounts : Bank
two_accounts = record new_server {
  accounts = λ i. record {
    id = i;
    deposits = if i == 1 then 700 else 0;
    withdrawals = if i == 1 then 200 else 0;
    balance = if i == 1 then 500 else 0;
  };
  active = 2;
}

two_accounts-AreWords : AreWords two_accounts
two_accounts-AreWords i = record {
  deposits_word = ground arith;
  withdrawals_word = ground arith;
  balance_word = ground arith;
}

log_fits : length (log_file two_accounts) ≤ 4095
unfolding log_file write_log text word_text pad2
log_fits = omega arith

load_db-log_file_example :
    (u : Bank) × (load_db new_server (log_file two_accounts) ≡ some u)
    × (u.active ≡ least two_accounts.active 99)
    × ((j : ℕ) → Found two_accounts new_server u 1 two_accounts.active j)
load_db-log_file_example =
    load_db-log_file two_accounts new_server two_accounts-AreWords (omega arith) log_fits refl

lost_line : scan_line (text "BankID_100 D 5 W 0 5") ≡ none
unfolding scan_line text
lost_line = refl
