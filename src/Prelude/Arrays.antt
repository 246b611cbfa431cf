-- ===== src/Prelude/Arrays.antt =====
-- Global C arrays as functions of the index, and the linear searches over them.
use Prim.Native.Nat.{ℕ, zero, suc, ◌+◌, ◌≤◌, ◌<◌}
use mathlib.Core.Path.{◌≡◌}
use mathlib.Core.Logic.{inl, inr}
use mathlib.Core.Bool.{Bool, true, false}
use mathlib.Core.Option.{Option, none, some}
use native.Mathlib.Omega.{arith}
use homeworks.Prelude.Tests.{◌==◌, if◌then◌else◌, Bool-cases}

-- `a[i] = v`
abbrev pub update {ℓ} : {A : Type ℓ} → (ℕ → A) → ℕ → A → ℕ → A
update a i v j = if i == j then v else a j

-- `for (k = i; k < i + n; k++) if (p(k)) return k;`
unfoldable pub first_from : (ℕ → Bool) → ℕ → ℕ → Option ℕ
first_from p i zero = none
first_from p i (suc n) = let rest = first_from p (i + 1) n in if p i then some i else rest

-- The index that a search finds passes the test, lies in the array, and is the first.
pub first_from-some :
    (p : ℕ → Bool) (i n k : ℕ) → first_from p i n ≡ some k → (p k ≡ true) × (i ≤ k) × (k < i + n)
unfolding first_from
first_from-some p i zero k e = cc
first_from-some p i (suc n) k e = elim (Bool-cases (p i)) [
  | inl hit ↦ ground arith
  | inr miss ↦ ground (arith, first_from-some p (i + 1) n k)
]

-- A search that finds nothing has seen every index fail.
pub first_from-none :
    (p : ℕ → Bool) (i n k : ℕ) → first_from p i n ≡ none → i ≤ k → k < i + n → p k ≡ false
unfolding first_from
first_from-none p i zero k e h l = absurd (omega arith)
first_from-none p i (suc n) k e h l = elim (Bool-cases (i == k)) [
  | inl here ↦ ground arith
  | inr there ↦ ground (arith, first_from-none p (i + 1) n k)
]
