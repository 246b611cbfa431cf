-- ===== src/School/Runs.antt =====
-- What the user does to the system, choice after choice.
use homeworks.Prelude.{
  refl, ◌+◌, ◌-◌, ◌≤◌, ◌<◌, ◌≡◌, ◌⊎◌, inl, inr, true, false, some, ◌==◌, Bool-cases, length,
  get_elem?, get_elem?-some, any, CString, streq, ℤ, ◌==ℤ◌, arith,
}
use homeworks.School.{Student, System, read_student, read_course}
use homeworks.School.Menu.{
  Action, adds_student, adds_course, deletes_student, deletes_course, takes_course, drops_course,
  run, available_from, add_course, drop_course,
}
use homeworks.School.Enrolment.{InOrder}
use homeworks.School.Steps.{
  add_student-InOrder, add_course-InOrder, delete_student-InOrder, delete_course-InOrder,
}
use homeworks.School.Taking.{take_course-InOrder, drop_course-lists}

-- What a choice needs: a new number or code, one of the last two students or courses for a
-- deletion, a course that is listed, and for dropping one that is not the last.
abbrev pub IsAllowed : System → Action → Type 0
IsAllowed s (adds_student line) =
    (entry : CString × ℤ) × (read_student line ≡ some entry)
    × (any (λ o. o.id ==ℤ entry.1) s.students.items ≡ false)
IsAllowed s (adds_course line) =
    any (λ c. streq c.code (read_course line).0) s.courses.items ≡ false
IsAllowed s (deletes_student i) = (i < length s.students.items) × (length s.students.items ≤ i + 2)
IsAllowed s (deletes_course k) = (k < length s.courses.items) × (length s.courses.items ≤ k + 2)
IsAllowed s (takes_course i choice) =
    (st : Student) × (get_elem? s.students.items i ≡ some st)
    × (choice ≤ length (available_from 0 st.courses.items s.courses.items))
IsAllowed s (drops_course i choice) =
    (st : Student) × (get_elem? s.students.items i ≡ some st)
    × ((choice ≡ 0) ⊎ (choice < length st.courses.items))

-- An allowed choice is carried out, and leaves the enrolments in order: codes and numbers are
-- distinct, no student takes a course twice, and every course that a student takes exists and lists
-- the student.
pub run-InOrder :
    (s : System) (a : Action)
    → InOrder s
    → IsAllowed s a
    → (t : System) × (run s a ≡ some t) × InOrder t
unfolding run
run-InOrder s (adds_student line) v (entry, e, new) =
    add_student-InOrder s line entry.0 entry.1 v e new
run-InOrder s (adds_course line) v h = (add_course s line, refl, add_course-InOrder s line v h)
run-InOrder s (deletes_student i) v h =
    let (st, e) = get_elem?-some s.students.items i h.0 in delete_student-InOrder s i st v e h.1
run-InOrder s (deletes_course k) v h =
    let (c, e) = get_elem?-some s.courses.items k h.0 in delete_course-InOrder s k c v e h.1
run-InOrder s (takes_course i choice) v (st, e, h) = take_course-InOrder s i choice st v e h
run-InOrder s (drops_course i choice) v (st, e, inl up) =
    let nothing : (choice == 0) ≡ true = ground arith in (s, rw (drop_course, e, nothing) refl, v)
run-InOrder s (drops_course i choice) v (st, e, inr h) = elim (Bool-cases (choice == 0)) [
  | inl up ↦ (s, rw (drop_course, e, up) refl, v)
  | inr chosen ↦
      let (t, at_t) = get_elem?-some st.courses.items (choice - 1) (ground arith) in
      elim (drop_course-lists s i choice st t v e (ground arith) at_t) [
        | inl (u, less, done, order, kept, stale) ↦ (u, done, order)
        | inr (last, gone) ↦ absurd (omega (arith, last, h))
      ]
]
