-- ===== src/School/Listing.antt =====
-- The courses that `list_courses` lists.
use homeworks.Prelude.{
  keep, arith, ℕ, zero, suc, ◌+◌, ◌-◌, ◌≡◌, inl, inr, refl, sym, ap, subst, ◌∙◌, true, false, List,
  [], ◌∷◌, some, leb, Bool-cases, length, get_elem?, any, streq, streq→≡, ℤ, All, IsUnique, All-get,
  any_mono, any-cons_none, any-cong, streq_comm,
}
use mathlib.Core.Bool.{false≢true}
use mathlib.Core.Option.{none-ne-some, some-injective}
use homeworks.School.{CourseCopy, Student, Course, System}
use homeworks.School.Menu.{available_from, list_courses}
use homeworks.School.Enrolment.{has, IsListed, same_code, same_copy, TakesOnce, has_here, InOrder}

-- The courses that a student does not take are as many as the others leave.
length-available :
    (k : ℕ) (taken : List CourseCopy) (cs : List Course)
    → length (available_from k taken cs)
        + length (keep (λ c. any (λ t. streq c.code t.code) taken) cs)
      ≡ length cs
unfolding available_from
length-available k taken [] = refl
length-available k taken (c ∷ cs) = ground (arith, length-available (k + 1) taken cs)

-- What stands among them is the index of a course that is not taken.
pub available_from-get :
    (k : ℕ) (taken : List CourseCopy) (cs : List Course) (j m : ℕ)
    → get_elem? (available_from k taken cs) j ≡ some m
    → (i : ℕ) × (c : Course) × (m ≡ k + i)
      × (get_elem? cs i ≡ some c)
      × (any (λ t. streq c.code t.code) taken ≡ false)
unfolding available_from
available_from-get k taken [] j m e = absurd (none-ne-some m e)
available_from-get k taken (c ∷ cs) zero m e =
    elim (Bool-cases (any (λ t. streq c.code t.code) taken)) [
      | inl taken_one ↦
          let (i, d, sum, there, free) =
            available_from-get (k + 1) taken cs zero m (rw taken_one at e) in
          (suc i, d, omega (arith, sum), there, free)
      | inr free ↦ (zero, c, omega (arith, some-injective k m (rw free at e)), refl, free)
    ]
available_from-get k taken (c ∷ cs) (suc j) m e =
    elim (Bool-cases (any (λ t. streq c.code t.code) taken)) [
      | inl taken_one ↦
          let (i, d, sum, there, free) =
            available_from-get (k + 1) taken cs (suc j) m (rw taken_one at e) in
          (suc i, d, omega (arith, sum), there, free)
      | inr untaken ↦
          let (i, d, sum, there, free) =
            available_from-get (k + 1) taken cs j m (rw untaken at e) in
          (suc i, d, omega (arith, sum), there, free)
    ]

-- The number of courses among those that a student takes.
abbrev taken_of : List CourseCopy → List Course → ℕ
taken_of taken cs = length (keep (λ c. any (λ t. streq c.code t.code) taken) cs)

taken_of-none :
    (t : CourseCopy) (taken : List CourseCopy) (cs : List Course)
    → any (λ c. streq c.code t.code) cs ≡ false
    → taken_of (t ∷ taken) cs ≡ taken_of taken cs
taken_of-none t taken [] h = refl
taken_of-none t taken (c ∷ cs) h =
    let (e, rest) = any-cons_none (λ d. streq d.code t.code) c cs h in
    let ih = taken_of-none t taken cs rest in
    rw e (elim (Bool-cases (any (λ u. streq c.code u.code) taken)) [
      | inl also ↦ rw also (ap suc ih)
      | inr free ↦ rw free ih
    ])

taken_of-cons :
    (t : CourseCopy) (taken : List CourseCopy) (cs : List Course)
    → any (same_copy t) taken ≡ false
    → IsUnique same_code cs
    → any (λ c. streq c.code t.code) cs ≡ true
    → taken_of (t ∷ taken) cs ≡ suc (taken_of taken cs)
taken_of-cons t taken [] once u h = absurd (false≢true h)
taken_of-cons t taken (c ∷ cs) once u h = elim (Bool-cases (streq c.code t.code)) [
  | inl here ↦
      let same : c.code ≡ t.code = streq→≡ c.code t.code here in
      let free : any (λ v. streq c.code v.code) taken ≡ false =
        subst (λ z. any (λ v. streq z v.code) taken ≡ false) (sym same) once in
      let others : any (λ d. streq d.code t.code) cs ≡ false =
        any-cong (λ d. streq d.code t.code) (same_code c)
          (λ d. streq_comm d.code t.code ∙ ap (λ z. streq z d.code) (sym same)) cs
        ∙ u.0 in
      rw (here, free) (ap suc (taken_of-none t taken cs others))
  | inr other ↦
      let ih = taken_of-cons t taken cs once u.1 (rw other at h) in
      rw other (elim (Bool-cases (any (λ v. streq c.code v.code) taken)) [
        | inl also ↦ rw also (ap suc ih)
        | inr free ↦ rw free ih
      ])
]

-- A student who takes existing courses, each once, takes as many courses as the list has.
taken_of-length :
    (taken : List CourseCopy) (cs : List Course) (id : ℤ)
    → IsUnique same_copy taken
    → IsUnique same_code cs
    → All (λ t. has cs t.code id ≡ true) taken
    → taken_of taken cs ≡ length taken
taken_of-length [] cs id once u h = nothing cs
  where
    nothing : (cs : List Course) → taken_of [] cs ≡ 0
    nothing [] = refl
    nothing (c ∷ cs) = nothing cs
taken_of-length (t ∷ taken) cs id once u h =
    taken_of-cons t taken cs once.0 u
      (any_mono (has_here t.code id) (λ c. streq c.code t.code) (λ c. code_of c) cs h.0)
    ∙ ap suc (taken_of-length taken cs id once.1 u h.1)
  where
    code_of : (c : Course) → has_here t.code id c ≡ true → streq c.code t.code ≡ true
    code_of c k = elim (Bool-cases (streq c.code t.code)) [
      | inl yes_code ↦ yes_code
      | inr no_code ↦ absurd (false≢true (rw no_code at k))
    ]

-- When the enrolments are in order, `list_courses` fills the array that it allocates exactly.
pub list_courses-fits :
    (s : System) (i : ℕ) (st : Student)
    → InOrder s
    → get_elem? s.students.items i ≡ some st
    → (list_courses s st ≡ some (available_from 0 st.courses.items s.courses.items))
      × (length (available_from 0 st.courses.items s.courses.items) + length st.courses.items
          ≡ length s.courses.items)
unfolding list_courses available_from
list_courses-fits s i st v e =
    let all_taken =
      taken_of-length st.courses.items s.courses.items st.id
        (All-get TakesOnce s.students.items i v.once e) v.codes
        (All-get (IsListed s.courses.items) s.students.items i v.listed e) in
    let total = length-available 0 st.courses.items s.courses.items in
    let few : leb (length st.courses.items) (length s.courses.items) ≡ true = ground arith in
    let room : leb (length (available_from 0 st.courses.items s.courses.items))
          (length s.courses.items - length st.courses.items)
        ≡ true =
      ground arith in
    (rw (list_courses, few, room) refl, omega (arith, total, all_taken))
