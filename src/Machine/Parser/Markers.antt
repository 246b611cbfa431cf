-- ===== src/Machine/Parser/Markers.antt =====
-- The markers of the sections, and the lines that hold none.

use homeworks.Prelude.{
  ℕ, zero, suc, ◌+◌, ◌-◌, ◌/◌, ◌%◌, ◌^◌, ◌≡◌, refl, subst, Bool, true, false, List, [], ◌∷◌, ◌++◌,
  Option, none, CString, text, decimal, arith, ltb, ◌==◌, strstr, starts_with, digits_from,
  if_cases, Bool-cases, inl, inr, ==→≡,
}
use homeworks.Machine.{
  InstructionType, set, cpy, cpyi, cpyi2, add, addi, subi, jif, push, pop, call, ret, hlt, user,
  syscall,
}
use homeworks.Machine.Parser.{
  Parser, name_of, contains, parse_line, process_data_line, process_instruction_line,
}
use homeworks.Machine.Parser.Words.{AllChars, join}
use homeworks.Machine.Parser.Numbers.{long_text}
use homeworks.Machine.Parser.Print.{
  Line, binary, unary, nullary, print_call, hlt_call, yield_call, type_of, operand_words,
  print_instruction, print_data,
}

-- Not a small letter. The markers of the sections have some, and the lines in the sections none.
abbrev pub no_small : ℕ → Bool
no_small c = ltb c 97

starts_with-AllChars :
    (s term : CString) → starts_with s term ≡ true → AllChars no_small s → AllChars no_small term
unfolding starts_with
starts_with-AllChars s [] h k = tt
starts_with-AllChars [] (b ∷ t) h k = absurd (ground arith)
starts_with-AllChars (a ∷ s) (b ∷ t) h k = elim (Bool-cases (a == b)) [
  | inl e ↦
      (subst (λ c. no_small c ≡ true) (==→≡ a b e) k.0, starts_with-AllChars s t (rw e at h) k.1)
  | inr e ↦ absurd (cc (rw e at h))
]

strstr-none :
    (s term : CString) → AllChars no_small s → (AllChars no_small term → ⊥) → strstr s term ≡ none
unfolding strstr
strstr-none [] term h k =
    if_cases (λ (o : Option CString). o ≡ none) (starts_with [] term)
      (λ e. absurd (k (starts_with-AllChars [] term e tt))) (λ _. refl)
strstr-none (c ∷ s) term h k =
    if_cases (λ (o : Option CString). o ≡ none) (starts_with (c ∷ s) term)
      (λ e. absurd (k (starts_with-AllChars (c ∷ s) term e h))) (λ _. strstr-none s term h.1 k)

-- Texts without small letters.
AllChars-append :
    (s t : CString) → AllChars no_small s → AllChars no_small t → AllChars no_small (s ++ t)
AllChars-append [] t h k = k
AllChars-append (c ∷ s) t h k = (h.0, AllChars-append s t h.1 k)

digits_from-AllChars :
    (fuel n : ℕ) (out : CString)
    → AllChars no_small out
    → AllChars no_small (digits_from fuel n out)
unfolding digits_from
digits_from-AllChars zero n out k = k
digits_from-AllChars (suc fuel) n out k =
    if_cases (AllChars no_small) (ltb n 10) (λ e. (ground arith, k))
      (λ e. digits_from-AllChars fuel (n / 10) ((n % 10 + b'0') ∷ out) (ground arith, k))

decimal-AllChars : (n : ℕ) → AllChars no_small (decimal n)
unfolding decimal
decimal-AllChars n = digits_from-AllChars (n + 1) n [] tt

long_text-AllChars : (n : ℕ) → AllChars no_small (long_text n)
unfolding long_text
long_text-AllChars n =
    if_cases (AllChars no_small) (ltb n (2 ^ 63)) (λ _. decimal-AllChars n)
      (λ _. (refl, decimal-AllChars (2 ^ 64 - n)))

name_of-AllChars : (t : InstructionType) → AllChars no_small (name_of t)
unfolding text
name_of-AllChars set = (refl, (refl, (refl, tt)))
name_of-AllChars cpy = (refl, (refl, (refl, tt)))
name_of-AllChars cpyi = (refl, (refl, (refl, (refl, tt))))
name_of-AllChars cpyi2 = (refl, (refl, (refl, (refl, (refl, tt)))))
name_of-AllChars add = (refl, (refl, (refl, tt)))
name_of-AllChars addi = (refl, (refl, (refl, (refl, tt))))
name_of-AllChars subi = (refl, (refl, (refl, (refl, tt))))
name_of-AllChars jif = (refl, (refl, (refl, tt)))
name_of-AllChars push = (refl, (refl, (refl, (refl, tt))))
name_of-AllChars pop = (refl, (refl, (refl, tt)))
name_of-AllChars call = (refl, (refl, (refl, (refl, tt))))
name_of-AllChars ret = (refl, (refl, (refl, tt)))
name_of-AllChars hlt = (refl, (refl, (refl, tt)))
name_of-AllChars user = (refl, (refl, (refl, (refl, tt))))
name_of-AllChars syscall = (refl, (refl, (refl, (refl, (refl, (refl, (refl, tt)))))))

abbrev AllTexts : List CString → Type 0
AllTexts [] = Unit {0}
AllTexts (w ∷ ws) = AllChars no_small w × AllTexts ws

operand_words-AllTexts : (l : Line) → AllTexts (operand_words l)
unfolding text
operand_words-AllTexts (binary t a b) = (long_text-AllChars a, (long_text-AllChars b, tt))
operand_words-AllTexts (unary t a) = (long_text-AllChars a, tt)
operand_words-AllTexts (nullary t) = tt
operand_words-AllTexts (print_call a) = ((refl, (refl, (refl, tt))), (long_text-AllChars a, tt))
operand_words-AllTexts hlt_call = ((refl, (refl, (refl, tt))), tt)
operand_words-AllTexts yield_call = ((refl, (refl, (refl, (refl, (refl, tt))))), tt)

join-AllChars : (ws : List CString) → AllTexts ws → AllChars no_small (join ws)
join-AllChars [] h = tt
join-AllChars (w ∷ []) h = h.0
join-AllChars (w ∷ v ∷ ws) h = AllChars-append w _ h.0 (refl, join-AllChars (v ∷ ws) h.1)

-- The four markers.
pub begin_data : CString
begin_data = text "Begin Data Section"

pub end_data : CString
end_data = text "End Data Section"

pub begin_instructions : CString
begin_instructions = text "Begin Instruction Section"

pub end_instructions : CString
end_instructions = text "End Instruction Section"

contains-false :
    (line term : CString)
    → AllChars no_small line
    → (AllChars no_small term → ⊥)
    → contains line term ≡ false
unfolding contains
contains-false line term h k = rw (strstr-none line term h k, contains) refl

no_marker :
    (line : CString)
    → AllChars no_small line
    → (contains line begin_data ≡ false)
      × (contains line end_data ≡ false)
      × (contains line begin_instructions ≡ false)
      × (contains line end_instructions ≡ false)
unfolding begin_data end_data begin_instructions end_instructions text
no_marker line h = (
  contains-false line begin_data h (λ k. cc (k.1.0)),
  contains-false line end_data h (λ k. cc (k.1.0)),
  contains-false line begin_instructions h (λ k. cc (k.1.0)),
  contains-false line end_instructions h (λ k. cc (k.1.0)),
)

pub parse-begin_data :
    (p : Parser)
    → parse_line begin_data p
      ≡ record p { parsing_data_section = true; parsing_instruction_section = false }
unfolding begin_data parse_line contains strstr starts_with text
parse-begin_data p = refl

pub parse-end_data :
    (p : Parser) → parse_line end_data p ≡ record p { parsing_data_section = false }
unfolding end_data parse_line contains strstr starts_with text
parse-end_data p = refl

pub parse-begin_instructions :
    (p : Parser)
    → parse_line begin_instructions p
      ≡ record p { parsing_data_section = false; parsing_instruction_section = true }
unfolding begin_instructions parse_line contains strstr starts_with text
parse-begin_instructions p = refl

pub parse-end_instructions :
    (p : Parser) → parse_line end_instructions p ≡ record p { parsing_instruction_section = false }
unfolding end_instructions parse_line contains strstr starts_with text
parse-end_instructions p = refl

pub parse_line-data :
    (line : CString) (p : Parser)
    → AllChars no_small line
    → p.parsing_data_section ≡ true
    → parse_line line p ≡ process_data_line line p
unfolding parse_line begin_data end_data begin_instructions end_instructions
parse_line-data [] p h e = refl
parse_line-data (c ∷ s) p h e = let m = no_marker (c ∷ s) h in rw (m.0, m.1, m.2, m.3, e) refl

pub parse_line-instruction :
    (line : CString) (p : Parser)
    → AllChars no_small line
    → p.parsing_data_section ≡ false
    → p.parsing_instruction_section ≡ true
    → parse_line line p ≡ process_instruction_line line p
unfolding parse_line begin_data end_data begin_instructions end_instructions
parse_line-instruction [] p h e f = refl
parse_line-instruction (c ∷ s) p h e f =
    let m = no_marker (c ∷ s) h in rw (m.0, m.1, m.2, m.3, e, f) refl

pub print_data-AllChars : (a v : ℕ) → AllChars no_small (print_data a v)
unfolding print_data
print_data-AllChars a v =
    join-AllChars (decimal a ∷ long_text v ∷ []) (decimal-AllChars a, (long_text-AllChars v, tt))

pub print_instruction-AllChars : (a : ℕ) (l : Line) → AllChars no_small (print_instruction a l)
unfolding print_instruction
print_instruction-AllChars a l =
    join-AllChars (decimal a ∷ name_of (type_of l) ∷ operand_words l)
      (decimal-AllChars a, (name_of-AllChars (type_of l), operand_words-AllTexts l))
