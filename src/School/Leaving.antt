-- ===== src/School/Leaving.antt =====
-- The students of a course that is deleted.
use homeworks.Prelude.{
  ℕ, zero, suc, ◌≡◌, ◌⊎◌, inl, inr, refl, sym, ap, subst, ◌∙◌, Bool, true, false, List, [], ◌∷◌,
  some, Bool-cases, get_elem?, any, remove_first, update_first, CString, streq, streq→≡, streq_self,
  ℤ, ◌==ℤ◌, ==ℤ→≡, All, IsUnique, All-remove_first, All-map, IsUnique-remove_first, any-cons_none,
  any-cong, All-any_none, All-zip, ==ℤ_comm, streq_comm, any-get_none, IsUnique-update_first,
  All-update_first,
}
use mathlib.Core.Bool.{false≢true}
use mathlib.Core.Option.{none-ne-some, some-injective}
use homeworks.School.Menu.{leave_students}
use homeworks.School.{StudentCopy, CourseCopy, Student, Course, remove_course}
use homeworks.School.Enrolment.{has, lists, IsListed, same_code, same_id, same_copy, TakesOnce}

has-none :
    (cs : List Course) (c : Course) (id : ℤ)
    → any (same_code c) cs ≡ false
    → has cs c.code id ≡ false
has-none [] c id h = refl
has-none (x ∷ cs) c id h =
    let (e, rest) = any-cons_none (same_code c) x cs h in
    let other : streq x.code c.code ≡ false = streq_comm x.code c.code ∙ e in
    rw other (has-none cs c id rest)

-- The course with a code lists the student, where some course of that code does.
pub has-lists :
    (cs : List Course) (k : ℕ) (c : Course) (id : ℤ)
    → IsUnique same_code cs
    → get_elem? cs k ≡ some c
    → has cs c.code id ≡ true
    → lists id c ≡ true
has-lists [] k c id u e h = absurd (none-ne-some c e)
has-lists (x ∷ cs) zero c id u e h =
    let here : x ≡ c = some-injective x c e in
    let only = has-none cs c id (subst (λ z. any (same_code z) cs ≡ false) here u.0) in
    let at_c : has (c ∷ cs) c.code id ≡ true = subst (λ z. has (z ∷ cs) c.code id ≡ true) here h in
    elim (Bool-cases (lists id c)) [
      | inl listed ↦ listed
      | inr not_listed ↦
          absurd (false≢true (sym only ∙ (rw (streq_self c.code, not_listed) at at_c)))
    ]
has-lists (x ∷ cs) (suc k) c id u e h =
    let other : streq x.code c.code ≡ false = any-get_none (same_code x) cs k u.0 e in
    has-lists cs k c id u.1 e (rw other at h)

abbrev pub takes : CString → Student → Bool
takes code st = any (λ t. streq t.code code) st.courses.items

-- A course that was taken once is not taken any more once it has been removed.
remove_first-takes :
    (code : CString) (xs : List CourseCopy)
    → IsUnique same_copy xs
    → any (λ t. streq t.code code) (remove_first (λ t. streq t.code code) xs) ≡ false
remove_first-takes code [] h = refl
remove_first-takes code (x ∷ xs) h = elim (Bool-cases (streq x.code code)) [
  | inl here ↦ rw here (
      any-cong (λ t. streq t.code code) (same_copy x)
        (λ t. streq_comm t.code code ∙ ap (λ z. streq z t.code) (sym (streq→≡ x.code code here))) xs
      ∙ h.0)
  | inr other ↦ rw other (rw other (remove_first-takes code xs h.1))
]

-- A student of a course that is deleted, while some of its students are still to be visited.
abbrev pub Pending : CString → List StudentCopy → Student → Type 0
Pending code enrolled st = (any (λ e. e.id ==ℤ st.id) enrolled ≡ true) ⊎ (takes code st ≡ false)

Pending-other :
    (code : CString) (e : StudentCopy) (enrolled : List StudentCopy) (st : Student)
    → (e.id ==ℤ st.id) ≡ false
    → Pending code (e ∷ enrolled) st
    → Pending code enrolled st
Pending-other code e enrolled st ne (inl h) = inl (rw ne at h)
Pending-other code e enrolled st ne (inr h) = inr h

update_first-Pending :
    (code : CString) (e : StudentCopy) (enrolled : List StudentCopy) (sts : List Student)
    → IsUnique same_id sts
    → All TakesOnce sts
    → All (Pending code (e ∷ enrolled)) sts
    → All (Pending code enrolled) (update_first (λ st. st.id ==ℤ e.id) (remove_course code) sts)
update_first-Pending code e enrolled [] u o h = tt
update_first-Pending code e enrolled (x ∷ sts) u o h = elim (Bool-cases (x.id ==ℤ e.id)) [
  | inl here ↦
      let same : x.id ≡ e.id = ==ℤ→≡ x.id e.id here in
      rw here (
        inr (remove_first-takes code x.courses.items o.0),
        All-zip (λ st k. Pending-other code e enrolled st (ap (λ z. z ==ℤ st.id) (sym same) ∙ k))
            sts (All-any_none (same_id x) sts u.0) h.1,
      )
  | inr other ↦ rw other (
    Pending-other code e enrolled x (==ℤ_comm e.id x.id ∙ other) h.0,
    update_first-Pending code e enrolled sts u.1 o.1 h.1,
  )
]

-- What `delete_course` does to the students.
pub record AreLeft (code : CString) (cs : List Course) (sts : List Student) : Type 0 where
  pub ids : IsUnique same_id sts
  pub once : All TakesOnce sts
  pub listed : All (IsListed cs) sts
  pub gone : All (λ st. takes code st ≡ false) sts

pub leave_students-AreLeft :
    (code : CString) (cs : List Course) (enrolled : List StudentCopy) (sts : List Student)
    → IsUnique same_id sts
    → All TakesOnce sts
    → All (IsListed cs) sts
    → All (Pending code enrolled) sts
    → AreLeft code cs (leave_students code enrolled sts)
unfolding leave_students
leave_students-AreLeft code cs [] sts u o l h = record {
  ids = u;
  once = o;
  listed = l;
  gone = All-map (λ st k. elim k [ inl waits ↦ absurd (false≢true waits) | inr gone ↦ gone ]) sts h;
}
leave_students-AreLeft code cs (e ∷ enrolled) sts u o l h =
    leave_students-AreLeft code cs enrolled
      (update_first (λ st. st.id ==ℤ e.id) (remove_course code) sts)
      (IsUnique-update_first same_id (λ st. st.id ==ℤ e.id) (remove_course code)
        (λ s t. (refl, refl)) sts u)
      (All-update_first TakesOnce (λ st. st.id ==ℤ e.id) (remove_course code)
        (λ st k. IsUnique-remove_first same_copy (λ t. streq t.code code) st.courses.items k) sts o)
      (All-update_first (IsListed cs) (λ st. st.id ==ℤ e.id) (remove_course code)
        (λ st k.
          All-remove_first (λ t. has cs t.code st.id ≡ true) (λ t. streq t.code code)
            st.courses.items k)
        sts l)
      (update_first-Pending code e enrolled sts u o h)
