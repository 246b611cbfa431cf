-- ===== src/Bank/Database/Text.antt =====
-- The lines of Bank.log: how long they are, and where the file is cut.
use homeworks.Prelude.{
  ℕ, zero, suc, ◌+◌, ◌-◌, ◌*◌, ◌/◌, ◌%◌, ◌^◌, ◌<◌, ◌≤◌, ◌≡◌, refl, ap, Bool, true, false, [], ◌∷◌,
  ◌++◌, ◌==◌, ltb, if_cases, CString, text, arith, pad2, isdigit, decimal, decimal_int, digits_from,
  length, length-append, c_string, Bool-cases, inl, inr,
}
use homeworks.Machine.Parser.Words.{AllChars}
use homeworks.Machine.Parser.Numbers.{HasDigits, decimal-HasDigits}
use homeworks.Catalog.{split, prepend}
use homeworks.Bank.{Account, word_text, is_negative}
use homeworks.Bank.Database.Lines.{
  line_text, deposits_text, withdrawals_text, balance_text, IsWords,
}

-- Neither a newline nor a zero byte.
abbrev pub is_plain : ℕ → Bool
is_plain c = ltb 31 c

pub AllChars-append :
    (p : ℕ → Bool) (s t : CString) → AllChars p s → AllChars p t → AllChars p (s ++ t)
AllChars-append p [] t h k = k
AllChars-append p (c ∷ s) t h k = (h.0, AllChars-append p s t h.1 k)

digit-is_plain : (c : ℕ) → isdigit c ≡ true → is_plain c ≡ true
unfolding isdigit
digit-is_plain c h = ground arith

digits-is_plain : (s : CString) → AllChars isdigit s → AllChars is_plain s
digits-is_plain [] h = tt
digits-is_plain (c ∷ s) h = (digit-is_plain c h.0, digits-is_plain s h.1)

HasDigits-is_plain : (s : CString) → HasDigits s → AllChars is_plain s
HasDigits-is_plain [] h = tt
HasDigits-is_plain (c ∷ s) h = digits-is_plain (c ∷ s) h

word_text-is_plain : (w : ℕ) → AllChars is_plain (word_text w)
unfolding word_text decimal_int
word_text-is_plain w = elim (Bool-cases (is_negative w)) [
  | inl e ↦ rw e (
    refl,
    HasDigits-is_plain (decimal (suc (2 ^ 32 - 1 - w))) (decimal-HasDigits (suc (2 ^ 32 - 1 - w))),
  )
  | inr e ↦ rw e (HasDigits-is_plain (decimal w) (decimal-HasDigits w))
]

pad2-is_plain : (s : CString) → AllChars is_plain s → AllChars is_plain (pad2 s)
unfolding pad2
pad2-is_plain [] h = tt
pad2-is_plain (c ∷ []) h = (refl, h)
pad2-is_plain (c ∷ d ∷ s) h = h

letters-is_plain :
    AllChars is_plain (text "BankID_")
    × AllChars is_plain (text " D ")
    × AllChars is_plain (text " W ")
    × AllChars is_plain (text " ")
unfolding text
letters-is_plain = (
  (refl, (refl, (refl, (refl, (refl, (refl, (refl, tt))))))),
  (refl, (refl, (refl, tt))),
  (refl, (refl, (refl, tt))),
  (refl, tt),
)

pub line_text-is_plain : (i : ℕ) (a : Account) → AllChars is_plain (line_text i a)
line_text-is_plain i a =
    let (bank, d, w, space) = letters-is_plain in
    let add = AllChars-append is_plain in
    let tail =
      add (text " ") (balance_text a) space
        (add (word_text a.balance) [] (word_text-is_plain a.balance) tt) in
    let middle = add (text " W ") (withdrawals_text a) w (
      add (word_text a.withdrawals) (text " " ++ balance_text a) (word_text-is_plain a.withdrawals)
        tail) in
    let front = add (text " D ") (deposits_text a) d (
      add (word_text a.deposits) (text " W " ++ withdrawals_text a) (word_text-is_plain a.deposits)
        middle) in
    add (text "BankID_") (pad2 (word_text i) ++ (text " D " ++ deposits_text a)) bank (
      add (pad2 (word_text i)) (text " D " ++ deposits_text a)
        (pad2-is_plain (word_text i) (word_text-is_plain i)) front)

-- The file is cut behind a line.
pub split-line :
    (l rest : CString) → AllChars is_plain l → split 10 (l ++ 10 ∷ rest) ≡ l ∷ split 10 rest
unfolding split
split-line [] rest h = refl
split-line (c ∷ l) rest h =
    let other : (c == 10) ≡ false = ground (arith, h.0) in
    rw other (ap (prepend c) (split-line l rest h.1))

pub c_string-line :
    (l rest : CString) → AllChars is_plain l → c_string (l ++ 10 ∷ rest) ≡ l ++ 10 ∷ c_string rest
unfolding c_string
c_string-line [] rest h = refl
c_string-line (c ∷ l) rest h =
    let other : (c == 0) ≡ false = ground (arith, h.0) in
    rw other (ap (◌∷◌ c) (c_string-line l rest h.1))

-- 10 ^ k.
abbrev tens : ℕ → ℕ
tens zero = 1
tens (suc k) = 10 * tens k

length-digits_from :
    (k fuel n : ℕ) (out : CString)
    → n < tens (suc k)
    → length (digits_from fuel n out) ≤ suc k + length out
unfolding digits_from
length-digits_from k zero n out h = omega arith
length-digits_from zero (suc fuel) n out h =
    if_cases (λ (s : CString). length s ≤ 1 + length out) (ltb n 10) (λ _. omega arith)
      (λ e. absurd (ground arith))
length-digits_from (suc k) (suc fuel) n out h =
    if_cases (λ (s : CString). length s ≤ suc (suc k) + length out) (ltb n 10) (λ _. omega arith)
      (λ e.
        omega
          (arith, length-digits_from k fuel (n / 10) ((n % 10 + b'0') ∷ out) (omega (arith, h))))

length-decimal : (n : ℕ) → n ≤ 2 ^ 32 → length (decimal n) ≤ 10
unfolding decimal
length-decimal n h = omega (arith, length-digits_from 9 (n + 1) n [] (omega arith))

length-word_text : (w : ℕ) → w < 2 ^ 32 → length (word_text w) ≤ 11
unfolding word_text decimal_int
length-word_text w h = elim (Bool-cases (is_negative w)) [
  | inl e ↦ rw e (omega (arith, length-decimal (suc (2 ^ 32 - 1 - w)) (omega arith)))
  | inr e ↦ rw e (omega (arith, length-decimal w (omega arith)))
]

length-pad2 : (s : CString) → length (pad2 s) ≤ length s + 1
unfolding pad2
length-pad2 [] = omega arith
length-pad2 (c ∷ []) = omega arith
length-pad2 (c ∷ d ∷ s) = omega arith

-- `snprintf` cuts nothing off the line of an account.
pub length-line_text : (i : ℕ) (a : Account) → i < 2 ^ 32 → IsWords a → length (line_text i a) ≤ 255
unfolding text
length-line_text i a h w = omega (
  arith,
  length-append (pad2 (word_text i)) (text " D " ++ deposits_text a),
  length-pad2 (word_text i),
  length-word_text i h,
  length-append (word_text a.deposits) (text " W " ++ withdrawals_text a),
  length-word_text a.deposits w.deposits_word,
  length-append (word_text a.withdrawals) (text " " ++ balance_text a),
  length-word_text a.withdrawals w.withdrawals_word,
  length-append (word_text a.balance) [],
  length-word_text a.balance w.balance_word,
)
