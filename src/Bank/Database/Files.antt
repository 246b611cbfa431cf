-- ===== src/Bank/Database/Files.antt =====
-- What write_log writes, and how strtok cuts it.
use homeworks.Prelude.{
  ℕ, zero, suc, ◌+◌, ◌^◌, ◌<◌, ◌≡◌, refl, sym, ap, ◌∙◌, inl, inr, true, List, [], ◌∷◌, ◌++◌, map,
  keep, take-all, Bool-cases, CString, text, arith, concat, c_string, All, all,
}
use mathlib.Core.List.{append_assoc}
use homeworks.Catalog.{split}
use homeworks.Bank.{Account, Bank, log_lines}
use homeworks.Bank.Database.{is_line, strtok_lines}
use homeworks.Bank.Database.Lines.{IsWords, line_text}
use homeworks.Bank.Database.Text.{
  is_plain, line_text-is_plain, length-line_text, split-line, c_string-line,
}
use homeworks.Machine.Parser.Words.{AllChars}

-- Every column of every account is a word.
abbrev pub AreWords : Bank → Type 0
AreWords s = (i : ℕ) → IsWords (s.accounts i)

-- The lines of the accounts, and the last line.
abbrev pub account_lines : Bank → ℕ → ℕ → List CString
account_lines s i zero = text "## end of log." ∷ []
account_lines s i (suc n) = line_text i (s.accounts i) ∷ account_lines s (i + 1) n

pub log_lines-eq-account_lines :
    (s : Bank) (i n : ℕ) → AreWords s → i + n < 2 ^ 32 → log_lines s i n ≡ account_lines s i n
unfolding log_lines concat
log_lines-eq-account_lines s i zero w h = refl
log_lines-eq-account_lines s i (suc n) w h =
    ap (λ l. l ∷ log_lines s (i + 1) n)
      (take-all 255 (line_text i (s.accounts i))
        (length-line_text i (s.accounts i) (omega arith) (w i)))
    ∙ ap (◌∷◌ (line_text i (s.accounts i))) (log_lines-eq-account_lines s (i + 1) n w (omega arith))

-- Lines that are not empty and plain.
abbrev pub IsPlainLine : CString → Type 0
IsPlainLine l = AllChars is_plain l × (is_line l ≡ true)

abbrev pub file_of : List CString → CString
file_of lines = concat (map (λ line. line ++ 10 ∷ []) lines)

file_of-cons : (l : CString) (lines : List CString) → file_of (l ∷ lines) ≡ l ++ 10 ∷ file_of lines
unfolding concat
file_of-cons l lines = append_assoc l (10 ∷ []) (file_of lines)

c_string-file_of :
    (lines : List CString) → All IsPlainLine lines → c_string (file_of lines) ≡ file_of lines
unfolding concat c_string
c_string-file_of [] h = refl
c_string-file_of (l ∷ lines) h =
    ap c_string (file_of-cons l lines)
    ∙ c_string-line l (file_of lines) h.0.0
    ∙ ap (λ s. l ++ 10 ∷ s) (c_string-file_of lines h.1)
    ∙ sym (file_of-cons l lines)

split-file_of : (lines : List CString) → All IsPlainLine lines → split 10 (file_of lines) ≡ lines
unfolding concat split
split-file_of [] h = refl
split-file_of (l ∷ lines) h =
    ap (split 10) (file_of-cons l lines)
    ∙ split-line l (file_of lines) h.0.0
    ∙ ap (◌∷◌ l) (split-file_of lines h.1)

keep-lines : (lines : List CString) → All IsPlainLine lines → keep is_line lines ≡ lines
keep-lines [] h = refl
keep-lines (l ∷ lines) h = rw h.0.1 (ap (◌∷◌ l) (keep-lines lines h.1))

-- strtok cuts the file into its lines.
pub strtok_lines-file_of :
    (lines : List CString) → All IsPlainLine lines → strtok_lines (c_string (file_of lines)) ≡ lines
unfolding strtok_lines
strtok_lines-file_of lines h =
    ap (λ s. keep is_line (split 10 s)) (c_string-file_of lines h)
    ∙ ap (keep is_line) (split-file_of lines h)
    ∙ keep-lines lines h

AllChars-all : (s : CString) → all is_plain s ≡ true → AllChars is_plain s
AllChars-all [] h = tt
AllChars-all (c ∷ s) h = elim (Bool-cases (is_plain c)) [
  | inl e ↦ (e, AllChars-all s (rw e at h))
  | inr e ↦ absurd (ground (arith, e, h))
]

last_line-IsPlainLine : IsPlainLine (text "## end of log.")
unfolding text
last_line-IsPlainLine = (AllChars-all (text "## end of log.") refl, refl)

line_text-IsPlainLine : (i : ℕ) (a : Account) → IsPlainLine (line_text i a)
unfolding text
line_text-IsPlainLine i a = (line_text-is_plain i a, refl)

pub account_lines-IsPlainLine : (s : Bank) (i n : ℕ) → All IsPlainLine (account_lines s i n)
account_lines-IsPlainLine s i zero = (last_line-IsPlainLine, tt)
account_lines-IsPlainLine s i (suc n) =
    (line_text-IsPlainLine i (s.accounts i), account_lines-IsPlainLine s (i + 1) n)
