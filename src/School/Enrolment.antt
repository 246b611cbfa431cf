-- ===== src/School/Enrolment.antt =====
-- Every course that a student takes exists and lists the student.
use homeworks.Prelude.{
  ℕ, zero, suc, ◌≡◌, inl, inr, refl, sym, ap, ◌∙◌, Bool, true, false, List, [], ◌∷◌, some,
  if◌then◌else◌, Bool-cases, get_elem?, any, update_first, remove_nth, CString, streq, ℤ, ◌==ℤ◌,
  ==ℤ→≡, All, IsUnique, All-map, any-remove_first, any-cons, All-any_none, ==ℤ_comm, streq_comm,
  any-update_first, any-get_none, IsUnique-update_first,
}
use mathlib.Core.Bool.{false≢true}
use mathlib.Core.Option.{some-injective}
use homeworks.School.Menu.{leave_courses}
use homeworks.School.{CourseCopy, Student, Course, System, remove_student}

abbrev pub lists : ℤ → Course → Bool
lists id c = any (λ e. e.id ==ℤ id) c.students.items

-- Some course of this code lists the student of this number.
abbrev pub has : List Course → CString → ℤ → Bool
has courses code id = any (λ c. if streq c.code code then lists id c else false) courses

abbrev pub IsListed : List Course → Student → Type 0
IsListed courses st = All (λ t. has courses t.code st.id ≡ true) st.courses.items

abbrev pub same_code : Course → Course → Bool
same_code c d = streq c.code d.code

abbrev pub same_id : Student → Student → Bool
same_id s t = s.id ==ℤ t.id

abbrev pub same_copy : CourseCopy → CourseCopy → Bool
same_copy t u = streq t.code u.code

abbrev pub TakesOnce : Student → Type 0
TakesOnce st = IsUnique same_copy st.courses.items

-- Codes and numbers are distinct, no student takes a course twice, and each is listed.
pub record InOrder (s : System) : Type 0 where
  pub codes : IsUnique same_code s.courses.items
  pub ids : IsUnique same_id s.students.items
  pub once : All TakesOnce s.students.items
  pub listed : All (IsListed s.courses.items) s.students.items

-- Courses among which whatever was listed for the students that matter still is.
pub IsListed-mono :
    (cs ds : List Course) (st : Student)
    → ((code : CString) → has cs code st.id ≡ true → has ds code st.id ≡ true)
    → IsListed cs st
    → IsListed ds st
IsListed-mono cs ds st f h = All-map (λ t k. f t.code k) st.courses.items h

-- The test that `has` makes of a course.
abbrev pub has_here : CString → ℤ → Course → Bool
has_here code id c = if streq c.code code then lists id c else false

-- It holds on of a course that lists more under the same code.
pub has_here_mono :
    (code : CString) (id : ℤ) (c d : Course)
    → d.code ≡ c.code
    → (lists id c ≡ true → lists id d ≡ true)
    → has_here code id c ≡ true
    → has_here code id d ≡ true
has_here_mono code id c d same more h = elim (Bool-cases (streq c.code code)) [
  | inl alike ↦
      let alike' : streq d.code code ≡ true = ap (λ z. streq z code) same ∙ alike in
      rw alike' (more (rw alike at h))
  | inr differ ↦ absurd (false≢true (rw differ at h))
]

-- A student who leaves a course changes nothing for another.
has-remove_student :
    (code : CString) (id other : ℤ)
    → (id ==ℤ other) ≡ false
    → (p : Course → Bool) (cs : List Course) → has cs code other ≡ true
    → has (update_first p (remove_student id) cs) code other ≡ true
has-remove_student code id other ne p cs h =
    any-update_first (has_here code other) p (remove_student id)
      (λ c k.
        has_here_mono code other c (remove_student id c) refl
          (any-remove_first (λ e. e.id ==ℤ id) (λ e. e.id ==ℤ other)
            (λ e g. ap (λ z. z ==ℤ other) (==ℤ→≡ e.id id g) ∙ ne) c.students.items)
          k)
      cs h

pub has-leave_courses :
    (code : CString) (id other : ℤ)
    → (id ==ℤ other) ≡ false
    → (taken : List CourseCopy) (cs : List Course) → has cs code other ≡ true
    → has (leave_courses id taken cs) code other ≡ true
unfolding leave_courses
has-leave_courses code id other ne [] cs h = h
has-leave_courses code id other ne (t ∷ taken) cs h =
    has-leave_courses code id other ne taken
      (update_first (λ c. streq c.code t.code) (remove_student id) cs)
      (has-remove_student code id other ne (λ c. streq c.code t.code) cs h)

pub leave_courses-codes :
    (id : ℤ) (taken : List CourseCopy) (cs : List Course)
    → IsUnique same_code cs
    → IsUnique same_code (leave_courses id taken cs)
unfolding leave_courses
leave_courses-codes id [] cs h = h
leave_courses-codes id (t ∷ taken) cs h =
    leave_courses-codes id taken (update_first (λ c. streq c.code t.code) (remove_student id) cs) (
      IsUnique-update_first same_code (λ c. streq c.code t.code) (remove_student id)
        (λ c d. (refl, refl)) cs h)

-- The other students have other numbers.
pub others-ids :
    (j : ℕ) (sts : List Student) (st : Student)
    → IsUnique same_id sts
    → get_elem? sts j ≡ some st
    → All (λ o. (st.id ==ℤ o.id) ≡ false) (remove_nth j sts)
others-ids j [] st h e = tt
others-ids zero (x ∷ sts) st h e =
    All-any_none (same_id st) sts
      (ap (λ z. any (same_id z) sts) (sym (some-injective x st e)) ∙ h.0)
others-ids (suc j) (x ∷ sts) st h e =
    (==ℤ_comm st.id x.id ∙ any-get_none (same_id x) sts j h.0 e, others-ids j sts st h.1 e)

-- The other courses have other codes.
pub others-codes :
    (k : ℕ) (cs : List Course) (c : Course)
    → IsUnique same_code cs
    → get_elem? cs k ≡ some c
    → All (λ d. (streq c.code d.code) ≡ false) (remove_nth k cs)
others-codes k [] c h e = tt
others-codes zero (x ∷ cs) c h e =
    All-any_none (same_code c) cs
      (ap (λ z. any (same_code z) cs) (sym (some-injective x c e)) ∙ h.0)
others-codes (suc k) (x ∷ cs) c h e =
    (streq_comm c.code x.code ∙ any-get_none (same_code x) cs k h.0 e, others-codes k cs c h.1 e)

-- A course of another code stays where one is removed.
pub has-remove_nth :
    (cs : List Course) (k : ℕ) (c : Course) (code : CString) (id : ℤ)
    → get_elem? cs k ≡ some c
    → (streq c.code code) ≡ false
    → has cs code id ≡ true
    → has (remove_nth k cs) code id ≡ true
has-remove_nth [] k c code id e ne h = h
has-remove_nth (x ∷ cs) zero c code id e ne h =
    let other : has_here code id x ≡ false =
      ap (λ z. has_here code id z) (some-injective x c e) ∙ rw ne refl in
    rw other at h
has-remove_nth (x ∷ cs) (suc k) c code id e ne h =
    any-cons (has_here code id) x cs (remove_nth k cs) (has-remove_nth cs k c code id e ne) h
