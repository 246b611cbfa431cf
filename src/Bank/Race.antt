-- ===== src/Bank/Race.antt =====
-- The critical sections of a teller: what a withdrawal does, and what another teller between the two
-- sections of one makes of a deposit.
use homeworks.Prelude.{
  ap, ◌∙◌, ℕ, ◌+◌, ◌^◌, ◌<◌, ◌≡◌, refl, Bool, true, false, ◌==◌, ltb, if_cases, inl, inr, ◌⊎◌,
  arith, update, atoi, c_string, drop, streq, text, ◌||◌,
}
use homeworks.Bank.{
  Account, Bank, word_add, word_sub, word_ge, is_negative, process_transaction, reply_client,
  set_account, set_response,
}

abbrev pub amount_of : Bank → ℕ → ℕ
amount_of s idx = atoi (c_string (s.requests idx).credit)

abbrev pub account_of : Bank → ℕ → ℕ
account_of s idx = atoi (c_string (drop 7 (s.requests idx).id))

-- A request on an account that exists.
pub record IsKnown (s : Bank) (idx : ℕ) : Type 0 where
  pub not_new : streq (c_string (s.requests idx).id) (text "N") ≡ false
  pub in_use : (is_negative (account_of s idx) || ltb s.active (account_of s idx)) ≡ false

-- What a withdrawal may come to: refused with every account kept, because the balance is too
-- small; or made, with exactly the amount moved from the balance to the withdrawals of the
-- teller's account and every other account kept.
abbrev pub Withdraws : Bank → ℕ → ℕ → Bool × Bank → Type 0
Withdraws s idx i out =
    ((out.0 ≡ false)
      × ((s.accounts s.b_id).balance < amount_of s idx)
      × (out.1.accounts ≡ s.accounts))
    ⊎ ((out.0 ≡ true)
        × ((out.1.accounts s.b_id).balance + amount_of s idx ≡ (s.accounts s.b_id).balance)
        × ((out.1.accounts s.b_id).withdrawals
            ≡ word_add (s.accounts s.b_id).withdrawals (amount_of s idx))
        × ((i ≡ s.b_id) ⊎ (out.1.accounts i ≡ s.accounts i)))

-- Signed comparison of two words that are not negative.
word_ge-false : (b a : ℕ) → b < 2 ^ 31 → a < 2 ^ 31 → word_ge b a ≡ false → b < a
word_ge-false b a h l e = ground arith

word_ge-true : (b a : ℕ) → b < 2 ^ 31 → a < 2 ^ 31 → word_ge b a ≡ true → word_sub b a + a ≡ b
word_ge-true b a h l e = ground arith

updated : (accounts : ℕ → Account) (id : ℕ) (a : Account) → update accounts id a id ≡ a
updated accounts id a =
    if_cases (λ (x : Account). x ≡ a) (id == id) (λ _. refl) (λ e. absurd (ground arith))

kept :
    (accounts : ℕ → Account) (id i : ℕ) (a : Account)
    → (i ≡ id) ⊎ (update accounts id a i ≡ accounts i)
kept accounts id i a =
    if_cases (λ (x : Account). (i ≡ id) ⊎ (x ≡ accounts i)) (id == i) (λ e. inl (ground arith))
      (λ _. inr refl)

-- A withdrawal of an amount that is not negative from a balance that is not negative is refused,
-- every account kept, when the balance is smaller than the amount; otherwise the amount leaves
-- the balance of the teller's account, is added to its withdrawals, and no other account changes.
pub process_transaction-withdraw :
    (s : Bank) (idx i : ℕ)
    → (s.accounts s.b_id).balance < 2 ^ 31
    → amount_of s idx < 2 ^ 31
    → Withdraws s idx i (process_transaction s idx false)
unfolding process_transaction reply_client set_account set_response
process_transaction-withdraw s idx i h l =
    let a = s.accounts s.b_id in
    let amount = amount_of s idx in
    let paid_out : Account = record a {
      balance = word_sub a.balance amount;
      withdrawals = word_add a.withdrawals amount;
    } in
    let same = updated s.accounts s.b_id paid_out in
    let left = λ (e : word_ge a.balance amount ≡ true).
      ap (λ (x : Account). x.balance + amount) same ∙ word_ge-true a.balance amount h l e in
    let added = ap (λ (x : Account). x.withdrawals) same in
    let others = kept s.accounts s.b_id i paid_out in
    if_cases (Withdraws s idx i) (word_ge a.balance amount)
      (λ e.
        if_cases (Withdraws s idx i) (word_sub a.balance amount == 0)
          (λ _. inr (refl, left e, added, others)) (λ _. inr (refl, left e, added, others)))
      (λ e. inl (refl, word_ge-false a.balance amount h l e, refl))
