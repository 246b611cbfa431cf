-- ===== src/School/Examples.antt =====
-- The theorems on the school at a small one.
use homeworks.Prelude.{
  ℕ, ◌↔◌, ◌+◌, ◌<◌, ◌≡◌, ◌⊎◌, refl, true, List, [], ◌∷◌, streq, none, some, length, get_elem?,
  CString, text, pos, arith,
}
use homeworks.School.{
  Array, StudentCopy, CourseCopy, Student, Course, System, remove_course, read_student,
}
use homeworks.School.Menu.{
  deletes_student, run, available_from, list_courses, drop_course, delete_student,
}
use homeworks.School.Enrolment.{InOrder, has}
use homeworks.School.Steps.{delete_student-undefined}
use homeworks.School.Listing.{list_courses-fits}
use homeworks.School.Taking.{drop_course-lists}
use homeworks.School.Runs.{run-InOrder}

abbrev filled : {A : Type 0} → List A → Array A
filled xs = record { allocated = true; size = 10; items = xs }

abbrev code : ℕ → CString
code n = n ∷ []

abbrev pupil : ℕ → List CourseCopy → Student
pupil id taken = record { name = []; id = pos id; courses = filled taken }

abbrev class_of : ℕ → List StudentCopy → Course
class_of n enrolled = record { name = []; code = code n; students = filled enrolled }

abbrev copy_of : ℕ → CourseCopy
copy_of n = record { name = []; code = code n }

abbrev entry : StudentCopy
entry = record { name = []; id = pos 7 }

-- Student 7 takes courses 1 and 2; students 8 and 9 take none.
abbrev school : System
school = record {
  courses = filled (class_of 1 (entry ∷ []) ∷ class_of 2 (entry ∷ []) ∷ class_of 3 [] ∷ []);
  students = filled (pupil 7 (copy_of 1 ∷ copy_of 2 ∷ []) ∷ pupil 8 [] ∷ pupil 9 [] ∷ []);
}

school-InOrder : InOrder school
unfolding streq
school-InOrder = record {
  codes = (refl, (refl, (refl, tt)));
  ids = (refl, (refl, (refl, tt)));
  once = ((refl, (refl, tt)), (tt, (tt, tt)));
  listed = ((refl, (refl, tt)), (tt, (tt, tt)));
}

run-InOrder_example : (t : System) × (run school (deletes_student 1) ≡ some t) × InOrder t
run-InOrder_example =
    run-InOrder school (deletes_student 1) school-InOrder (omega arith, omega arith)

delete_student-undefined_example :
    (delete_student school 0 ≡ none) ↔ (2 < length school.students.items)
delete_student-undefined_example =
    delete_student-undefined school 0 (pupil 7 (copy_of 1 ∷ copy_of 2 ∷ [])) school-InOrder refl

list_courses-fits_example :
    (list_courses school (pupil 7 (copy_of 1 ∷ copy_of 2 ∷ []))
      ≡ some (available_from 0 (copy_of 1 ∷ copy_of 2 ∷ []) school.courses.items))
    × (length (available_from 0 (copy_of 1 ∷ copy_of 2 ∷ []) school.courses.items) + 2 ≡ 3)
list_courses-fits_example =
    list_courses-fits school 0 (pupil 7 (copy_of 1 ∷ copy_of 2 ∷ [])) school-InOrder refl

-- The first choice
abbrev first : ℕ
first = 1

drop_course-lists_example :
    ((u : System) × (1 < 2)
      × (drop_course school 0 1 ≡ some u)
      × InOrder u
      × (get_elem? u.students.items 0
          ≡ some (remove_course (code 1) (pupil 7 (copy_of 1 ∷ copy_of 2 ∷ []))))
      × (has u.courses.items (code 1) (pos 7) ≡ true))
    ⊎ ((first ≡ length (copy_of 1 ∷ copy_of 2 ∷ [])) × (drop_course school 0 1 ≡ none))
drop_course-lists_example =
    drop_course-lists school 0 1 (pupil 7 (copy_of 1 ∷ copy_of 2 ∷ [])) (copy_of 1) school-InOrder
      refl (omega arith) refl

-- The name keeps the space before the number; a space behind the number makes it a part of the name.
read_test : read_student (text "Ann Lee 12") ≡ some (text "Ann Lee ", pos 12)
unfolding read_student text
read_test = refl

trailing_test : read_student (text "Ann 12 ") ≡ some (text "Ann 12", pos 0)
unfolding read_student text
trailing_test = refl
