-- ===== src/Bank/Database/Restart.antt =====
-- What load_db finds again of the accounts that write_log has written.
use homeworks.Prelude.{
  ℕ, zero, suc, ◌+◌, ◌<◌, ◌≤◌, ◌≡◌, refl, ap, ◌∙◌, ◌⊎◌, inl, inr, false, List, [], ◌∷◌, take,
  take-all, some, Option, ltb, ◌==◌, if◌then◌else◌, Bool-cases, update, CString, text, arith,
  length, c_string, ==→≡,
}
use homeworks.Bank.{Account, Bank, write_log}
use homeworks.Bank.Database.{load_line, load_lines, load_db, strtok_lines, log_file}
use homeworks.Bank.Database.Lines.{numbered, line_text, load_line-cases}
use homeworks.Bank.Database.Files.{
  AreWords, account_lines, log_lines-eq-account_lines, file_of, strtok_lines-file_of,
  account_lines-IsPlainLine,
}

abbrev pub least : ℕ → ℕ → ℕ
least a b = if ltb a b then a else b

-- Of the accounts i to i + n - 1 those below 100 are found again; the others stay as they were.
abbrev pub Found : Bank → Bank → Bank → ℕ → ℕ → ℕ → Type 0
Found s t u i n j =
    ((i ≤ j) × (j < i + n) × (j < 100) × (u.accounts j ≡ numbered j (s.accounts j)))
    ⊎ (((j < i) ⊎ ((i + n ≤ j) ⊎ (100 ≤ j))) × (u.accounts j ≡ t.accounts j))

abbrev Loads : Bank → Bank → ℕ → ℕ → Option Bank → Type 0
Loads s t i n out =
    (u : Bank) × (out ≡ some u) × (u.active + 1 ≡ least (i + n) 100) × ((j : ℕ) → Found s t u i n j)

load_lines-last : (t : Bank) → load_lines t (text "## end of log." ∷ []) ≡ some t
unfolding load_lines load_line text
load_lines-last t = refl

load_lines-cons :
    (t u : Bank) (l : CString) (lines : List CString)
    → load_line t l ≡ some u
    → load_lines t (l ∷ lines) ≡ load_lines u lines
unfolding load_lines
load_lines-cons t u l lines h = rw (load_lines, h) refl

abbrev loaded : Bank → ℕ → Account → Bank
loaded t i a = record t {
  accounts = update t.accounts i (numbered i a);
  active = if ltb t.active i then i else t.active;
}

-- One account more in front.
Found-loaded :
    (s t u : Bank) (i n j : ℕ)
    → i < 100
    → Found s (loaded t i (s.accounts i)) u (i + 1) n j
    → Found s t u i (suc n) j
Found-loaded s t u i n j h (inl (a, b, c, e)) = inl (omega arith, omega arith, c, e)
Found-loaded s t u i n j h (inr (range, e)) = elim (Bool-cases (i == j)) [
  | inl same ↦
      let here : u.accounts j ≡ numbered i (s.accounts i) = e ∙ rw same refl in
      inl (
        ground arith,
        ground arith,
        ground arith,
        here ∙ ap (λ k. numbered k (s.accounts k)) (==→≡ i j same),
      )
  | inr other ↦ inr (outside range other, e ∙ rw other refl)
]
  where
    outside :
        (j < i + 1) ⊎ ((i + 1 + n ≤ j) ⊎ (100 ≤ j))
        → (i == j) ≡ false
        → (j < i) ⊎ ((i + suc n ≤ j) ⊎ (100 ≤ j))
    outside (inl l) o = inl (ground arith)
    outside (inr (inl l)) o = inr (inl (omega arith))
    outside (inr (inr l)) o = inr (inr l)

Found-lost :
    (s t u : Bank) (i n j : ℕ) → 100 ≤ i → Found s t u (i + 1) n j → Found s t u i (suc n) j
Found-lost s t u i n j h (inl (a, b, c, e)) = absurd (omega arith)
Found-lost s t u i n j h (inr (inl l, e)) = inr (ground arith, e)
Found-lost s t u i n j h (inr (inr (inl l), e)) = inr (inr (inl (omega arith)), e)
Found-lost s t u i n j h (inr (inr (inr l), e)) = inr (inr (inr l), e)

load_lines-account_lines :
    (s t : Bank) (i n : ℕ)
    → AreWords s
    → i + n ≤ 1000
    → t.active + 1 ≡ least i 100
    → Loads s t i n (load_lines t (account_lines s i n))
load_lines-account_lines s t i zero w h e = (
  t,
  load_lines-last t,
  e ∙ ap (λ k. least k 100) {x = i} {y = i + 0} (omega arith),
  λ j. inr (ground arith, refl),
)
load_lines-account_lines s t i (suc n) w h e =
    elim (load_line-cases t i (s.accounts i) (omega arith) (w i)) [
      | inl (small, read) ↦
          let (u, done, act, found) =
            load_lines-account_lines s (loaded t i (s.accounts i)) (i + 1) n w (omega arith)
              (ground arith) in
          (
            u,
            load_lines-cons t (loaded t i (s.accounts i)) (line_text i (s.accounts i))
                  (account_lines s (i + 1) n) read
                ∙ done,
            act ∙ ap (λ k. least k 100) {x = i + 1 + n} {y = i + suc n} (omega arith),
            λ j. Found-loaded s t u i n j small (found j),
          )
      | inr (big, read) ↦
          let (u, done, act, found) =
            load_lines-account_lines s t (i + 1) n w (omega arith) (ground arith) in
          (
            u,
            load_lines-cons t t (line_text i (s.accounts i)) (account_lines s (i + 1) n) read
                ∙ done,
            act ∙ ap (λ k. least k 100) {x = i + 1 + n} {y = i + suc n} (omega arith),
            λ j. Found-lost s t u i n j big (found j),
          )
    ]

active_last : (a u : ℕ) → u + 1 ≡ least (1 + a) 100 → u ≡ least a 99
active_last a u h = ground arith

-- After a restart: of a bank with fewer than 1000 accounts and a log that fits the buffer of
-- load_db, the accounts 1 to 99 are found again with their numbers, deposits, withdrawals and
-- balances, whatever words these are, and every other account is that of the new server; so the
-- accounts from 100 on are lost. The count of active accounts is the old one, or 99.
pub load_db-log_file :
    (s t : Bank)
    → AreWords s
    → s.active < 1000
    → length (log_file s) ≤ 4095
    → t.active ≡ 0
    → (u : Bank) × (load_db t (log_file s) ≡ some u)
      × (u.active ≡ least s.active 99)
      × ((j : ℕ) → Found s t u 1 s.active j)
unfolding load_db log_file write_log
load_db-log_file s t w bound fits fresh =
    let lines = account_lines s 1 s.active in
    let written : log_file s ≡ file_of lines =
      ap file_of (log_lines-eq-account_lines s 1 s.active w (omega arith)) in
    let read : strtok_lines (c_string (take 4095 (log_file s))) ≡ lines =
      ap (λ f. strtok_lines (c_string f)) (take-all 4095 (log_file s) fits ∙ written)
      ∙ strtok_lines-file_of lines (account_lines-IsPlainLine s 1 s.active) in
    let (u, done, act, found) =
      load_lines-account_lines s t 1 s.active w (omega arith) (omega arith) in
    (u, ap (load_lines t) read ∙ done, active_last s.active u.active act, found)
