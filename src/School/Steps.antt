-- ===== src/School/Steps.antt =====
-- The choices of the menus keep the enrolments in order.
use homeworks.Prelude.{
  arith, ◌↔◌, sym, if◌then◌else◌, get_elem?-lt, ◌<◌, any-All, ℕ, ◌+◌, ◌≤◌, ◌≡◌, inl, inr, refl,
  subst, ◌∙◌, true, false, [], ◌∷◌, ◌++◌, none, some, leb, Bool-cases, length, get_elem?, any,
  remove_nth, CString, streq, streq→≡, streq_self, ℤ, ◌==ℤ◌, ==ℤ_self, All-append_one,
  All-remove_nth, All-map, any-append_left, IsUnique-remove_nth, IsUnique-append_one, All-any_none,
  All-zip, streq_comm,
}
use mathlib.Core.Option.{none-ne-some}
use homeworks.School.Menu.{leave_courses, leave_students}
use homeworks.School.{Student, Course, System, push_back}
use homeworks.School.{read_student, read_course, new_array}
use homeworks.School.Menu.{
  add_student, add_course, delete_student, delete_course, erase_student, erase_course,
}
use homeworks.School.Deletion.{IsUnique-get, deletion_loop-lem}
use homeworks.School.Enrolment.{
  has, IsListed, same_code, same_id, TakesOnce, has_here, InOrder, has-leave_courses,
  leave_courses-codes, others-ids, has-remove_nth, IsListed-mono,
}
use homeworks.School.Leaving.{takes, Pending, has-lists, leave_students-AreLeft}

-- The whole loop of `delete_student`: with distinct numbers it deletes one of the last two students.
delete_student-lem :
    (s : System) (i : ℕ) (st : Student)
    → InOrder s
    → get_elem? s.students.items i ≡ some st
    → delete_student s i
      ≡ (if leb (length s.students.items) (i + 2) then some (erase_student st.id i st s) else none)
unfolding delete_student
delete_student-lem s i st v e =
    rw (delete_student, e)
      (deletion_loop-lem (λ t. t.students.items) (λ o. o.id ==ℤ st.id) (erase_student st.id)
        (λ j o t. refl) i (length s.students.items + 1) i 0 st s (omega arith)
        (omega (arith, get_elem?-lt s.students.items i e)) e (==ℤ_self st.id)
        (λ k y l f. IsUnique-get same_id s.students.items k i y st v.ids l f e))

pub delete_student-InOrder :
    (s : System) (i : ℕ) (st : Student)
    → InOrder s
    → get_elem? s.students.items i ≡ some st
    → length s.students.items ≤ i + 2
    → (t : System) × (delete_student s i ≡ some t) × InOrder t
unfolding erase_student
delete_student-InOrder s i st v e late =
    let ends : leb (length s.students.items) (i + 2) ≡ true = ground arith in
    (
      erase_student st.id i st s,
      delete_student-lem s i st v e ∙ rw ends refl,
      record {
        codes = leave_courses-codes st.id st.courses.items s.courses.items v.codes;
        ids = IsUnique-remove_nth same_id i s.students.items v.ids;
        once = All-remove_nth TakesOnce i s.students.items v.once;
        listed =
            All-zip
              (λ o l ne.
                IsListed-mono s.courses.items (leave_courses st.id st.courses.items s.courses.items)
                  o (λ code. has-leave_courses code st.id o.id ne st.courses.items s.courses.items)
                  l)
              (remove_nth i s.students.items)
              (All-remove_nth (IsListed s.courses.items) i s.students.items v.listed)
              (others-ids i s.students.items st v.ids e);
      },
    )

-- The deletion of a student is undefined exactly where at least two students follow that one in the
-- array: its loop goes on and reads the number of the deleted student.
pub delete_student-undefined :
    (s : System) (i : ℕ) (st : Student)
    → InOrder s
    → get_elem? s.students.items i ≡ some st
    → (delete_student s i ≡ none) ↔ (i + 2 < length s.students.items)
delete_student-undefined s i st v e = elim (Bool-cases (leb (length s.students.items) (i + 2))) [
  | inl ends ↦
      let done : delete_student s i ≡ some (erase_student st.id i st s) =
        delete_student-lem s i st v e ∙ rw ends refl in
      (λ gone. absurd (none-ne-some _ (sym gone ∙ done)), λ more. absurd (ground arith))
  | inr more ↦ (λ _. ground arith, λ _. delete_student-lem s i st v e ∙ rw more refl)
]

-- The same for a course.
delete_course-lem :
    (s : System) (k : ℕ) (c : Course)
    → InOrder s
    → get_elem? s.courses.items k ≡ some c
    → delete_course s k
      ≡ (if leb (length s.courses.items) (k + 2) then some (erase_course c.code k c s) else none)
unfolding delete_course
delete_course-lem s k c v e =
    rw (delete_course, e)
      (deletion_loop-lem (λ t. t.courses.items) (λ o. streq o.code c.code) (erase_course c.code)
        (λ j o t. refl) k (length s.courses.items + 1) k 0 c s (omega arith)
        (omega (arith, get_elem?-lt s.courses.items k e)) e (streq_self c.code)
        (λ i y l f. IsUnique-get same_code s.courses.items i k y c v.codes l f e))

pub delete_course-InOrder :
    (s : System) (k : ℕ) (c : Course)
    → InOrder s
    → get_elem? s.courses.items k ≡ some c
    → length s.courses.items ≤ k + 2
    → (t : System) × (delete_course s k ≡ some t) × InOrder t
unfolding erase_course
delete_course-InOrder s k c v e late =
    let ends : leb (length s.courses.items) (k + 2) ≡ true = ground arith in
    let left =
      leave_students-AreLeft c.code s.courses.items c.students.items s.students.items v.ids v.once
        v.listed (All-map (λ st l. pending st l) s.students.items v.listed) in
    (
      erase_course c.code k c s,
      delete_course-lem s k c v e ∙ rw ends refl,
      record {
        codes = IsUnique-remove_nth same_code k s.courses.items v.codes;
        ids = left.ids;
        once = left.once;
        listed =
            All-zip
              (λ st l gone.
                All-zip
                  (λ t h ne.
                    has-remove_nth s.courses.items k c t.code st.id e
                      (streq_comm c.code t.code ∙ ne) h)
                  st.courses.items l
                  (All-any_none (λ t. streq t.code c.code) st.courses.items gone))
              (leave_students c.code c.students.items s.students.items) left.listed left.gone;
      },
    )
  where
    pending : (st : Student) → IsListed s.courses.items st → Pending c.code c.students.items st
    pending st l = elim (Bool-cases (takes c.code st)) [
      | inr free ↦ inr free
      | inl taken ↦
          let (t, h, same) =
            any-All (λ t. has s.courses.items t.code st.id ≡ true) (λ t. streq t.code c.code)
              st.courses.items l taken in
          inl (
            has-lists s.courses.items k c st.id v.codes e
              (subst (λ z. has s.courses.items z st.id ≡ true) (streq→≡ t.code c.code same) h))
    ]

pub add_student-InOrder :
    (s : System) (line name : CString) (id : ℤ)
    → InOrder s
    → read_student line ≡ some (name, id)
    → any (λ o. o.id ==ℤ id) s.students.items ≡ false
    → (t : System) × (add_student s line ≡ some t) × InOrder t
unfolding push_back add_student
add_student-InOrder s line name id v e new =
    let st : Student = record { name = name; id = id; courses = new_array } in
    (
      record s { students = push_back s.students st },
      rw (add_student, e) refl,
      record {
        codes = v.codes;
        ids = IsUnique-append_one same_id s.students.items st v.ids new;
        once = All-append_one TakesOnce s.students.items v.once tt;
        listed = All-append_one (IsListed s.courses.items) s.students.items v.listed tt;
      },
    )

pub add_course-InOrder :
    (s : System) (line : CString)
    → InOrder s
    → any (λ c. streq c.code (read_course line).0) s.courses.items ≡ false
    → InOrder (add_course s line)
unfolding add_course push_back
add_course-InOrder s line v new =
    let c : Course = record {
      name = (read_course line).1;
      code = (read_course line).0;
      students = new_array;
    } in
    record {
      codes = IsUnique-append_one same_code s.courses.items c v.codes new;
      ids = v.ids;
      once = v.once;
      listed =
          All-map
            (λ st l.
              IsListed-mono s.courses.items (s.courses.items ++ c ∷ []) st
                (λ code. any-append_left (has_here code st.id) s.courses.items (c ∷ [])) l)
            s.students.items v.listed;
    }
