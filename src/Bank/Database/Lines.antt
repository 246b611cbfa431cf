-- ===== src/Bank/Database/Lines.antt =====
-- The line of an account in Bank.log, and what sscanf reads in it.
use homeworks.Prelude.{
  ℕ, ◌+◌, ◌%◌, ◌^◌, ◌<◌, ◌≤◌, ◌≡◌, refl, ap, ◌∙◌, true, false, [], ◌∷◌, ◌++◌, some, none, Option,
  ◌==◌, if◌then◌else◌, CString, text, arith, pad2, isdigit, ltb, update, ◌⊎◌, inl, inr, Bool-cases,
}
use homeworks.School.{skip_spaces}
use homeworks.Machine.Lexer.{isspace}
use homeworks.Machine.Parser.{◌>>=◌}
use homeworks.Bank.{Account, Bank, word_text, is_negative}
use homeworks.Bank.Database.{scan_text, scan_line, load_line, load_account}
use homeworks.Bank.Database.Scanning.{stops, scan_int-word_text, skip_spaces-word_text}
use homeworks.Bank.Database.Numbered.{scan_two-pad2, scan_two-three}

-- The line piece by piece, from the balance to the front.
abbrev pub balance_text : Account → CString
balance_text a = word_text a.balance ++ []

abbrev pub withdrawals_text : Account → CString
withdrawals_text a = word_text a.withdrawals ++ (text " " ++ balance_text a)

abbrev pub deposits_text : Account → CString
deposits_text a = word_text a.deposits ++ (text " W " ++ withdrawals_text a)

abbrev pub line_text : ℕ → Account → CString
line_text i a = text "BankID_" ++ (pad2 (word_text i) ++ (text " D " ++ deposits_text a))

-- The columns are words.
pub record IsWords (a : Account) : Type 0 where
  pub deposits_word : a.deposits < 2 ^ 32
  pub withdrawals_word : a.withdrawals < 2 ^ 32
  pub balance_word : a.balance < 2 ^ 32

abbrev pub numbered : ℕ → Account → Account
numbered i a = record {
  id = i;
  deposits = a.deposits;
  withdrawals = a.withdrawals;
  balance = a.balance;
}

scan_text-BankID :
    (rest : CString) → scan_text (text "BankID_") (text "BankID_" ++ rest) ≡ some rest
unfolding scan_text text
scan_text-BankID rest = refl

scan_text-D :
    (w : ℕ) (rest : CString)
    → scan_text (text " D ") (text " D " ++ (word_text w ++ rest)) ≡ some (word_text w ++ rest)
unfolding scan_text text skip_spaces
scan_text-D w rest = ap some (skip_spaces-word_text w rest)

scan_text-W :
    (w : ℕ) (rest : CString)
    → scan_text (text " W ") (text " W " ++ (word_text w ++ rest)) ≡ some (word_text w ++ rest)
unfolding scan_text text skip_spaces
scan_text-W w rest = ap some (skip_spaces-word_text w rest)

scan_text-space :
    (w : ℕ) (rest : CString)
    → scan_text (text " ") (text " " ++ (word_text w ++ rest)) ≡ some (word_text w ++ rest)
unfolding scan_text text skip_spaces
scan_text-space w rest = ap some (skip_spaces-word_text w rest)

stops-W : (rest : CString) → stops (text " W " ++ rest) ≡ true
unfolding text isdigit
stops-W rest = refl

stops-space : (rest : CString) → stops (text " " ++ rest) ≡ true
unfolding text isdigit
stops-space rest = refl

-- One item of a format that is read.
step :
    {A B : Type 0} (f : A → Option B) {o : Option A} {x : A} {r : Option B}
    → o ≡ some x
    → f x ≡ r
    → (o >>= f) ≡ r
step f e h = ap (λ o. o >>= f) e ∙ h

step_none : {A B : Type 0} (f : A → Option B) {o : Option A} → o ≡ none → (o >>= f) ≡ none
step_none f e = ap (λ o. o >>= f) e

-- The line of an account with a number of at most two digits is read back.
pub scan_line-line_text :
    (i : ℕ) (a : Account) → i < 100 → IsWords a → scan_line (line_text i a) ≡ some (i, numbered i a)
unfolding scan_line
scan_line-line_text i a h w =
    step _ (scan_text-BankID (pad2 (word_text i) ++ (text " D " ++ deposits_text a))) (
      step _ (scan_two-pad2 i (text " D " ++ deposits_text a) h) (
        step _ (scan_text-D a.deposits (text " W " ++ withdrawals_text a)) (
          step _
            (scan_int-word_text a.deposits (text " W " ++ withdrawals_text a) w.deposits_word
              (stops-W (withdrawals_text a)))
            (step _ (scan_text-W a.withdrawals (text " " ++ balance_text a)) (
              step _
                (scan_int-word_text a.withdrawals (text " " ++ balance_text a) w.withdrawals_word
                  (stops-space (balance_text a)))
                (step _ (scan_text-space a.balance [])
                  (step _ (scan_int-word_text a.balance [] w.balance_word refl) refl)))))))

digit_facts : (d : ℕ) → d < 10 → (isspace (d + b'0') ≡ false) × ((b'D' == d + b'0') ≡ false)
digit_facts d h = ground arith

scan_text-digit :
    (d : ℕ) (rest : CString) → d < 10 → scan_text (text " D ") ((d + b'0') ∷ rest) ≡ none
unfolding scan_text text skip_spaces
scan_text-digit d rest h = let (space, other) = digit_facts d h in rw (space, other) refl

-- The line of an account with a number of three digits is not read.
scan_line-none : (i : ℕ) (a : Account) → 100 ≤ i → i < 1000 → scan_line (line_text i a) ≡ none
unfolding scan_line
scan_line-none i a g h =
    step _ (scan_text-BankID (pad2 (word_text i) ++ (text " D " ++ deposits_text a))) (
      step _ (scan_two-three i (text " D " ++ deposits_text a) g h)
        (step_none _ (scan_text-digit (i % 10) (text " D " ++ deposits_text a) (omega arith))))

load_line-line_text :
    (s : Bank) (i : ℕ) (a : Account)
    → load_line s (line_text i a) ≡ load_account s (scan_line (line_text i a))
unfolding load_line text
load_line-line_text s i a = refl

-- The line of an account up to 99 is loaded; that of one from 100 on is passed over, since `%02d`
-- takes only two digits of its number.
pub load_line-cases :
    (s : Bank) (i : ℕ) (a : Account)
    → i < 1000
    → IsWords a
    → ((i < 100)
        × (load_line s (line_text i a)
            ≡ some (record s {
              accounts = update s.accounts i (numbered i a);
              active = if ltb s.active i then i else s.active;
            })))
      ⊎ ((100 ≤ i) × (load_line s (line_text i a) ≡ some s))
unfolding load_account
load_line-cases s i a h w = elim (Bool-cases (ltb i 100)) [
  | inl e ↦
      let small : is_negative i ≡ false = ground arith in
      inl (
        ground arith,
        load_line-line_text s i a
            ∙ ap (load_account s) (scan_line-line_text i a (ground arith) w)
            ∙ rw small refl,
      )
  | inr e ↦ inr (
    ground arith,
    load_line-line_text s i a ∙ ap (load_account s) (scan_line-none i a (ground arith) h),
  )
]
