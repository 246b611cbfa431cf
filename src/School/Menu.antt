-- ===== src/School/Menu.antt =====
-- SchoolManagementSystem.cpp and main.cpp: what the choices of the menus do.
use homeworks.Prelude.{
  ℕ, zero, suc, ◌+◌, ◌-◌, Bool, true, false, List, [], ◌∷◌, Option, none, some, ltb, leb, ◌==◌,
  if◌then◌else◌, length, get_elem?, set, any, update_first, position, remove_nth, CString, streq, ℤ,
  ◌==ℤ◌,
}
use homeworks.School.{
  StudentCopy, CourseCopy, Student, Course, System, new_array, push_back, remove_student,
  remove_course, add_to_course, add_to_student, read_student, read_course,
}

-- The constructor
abbrev pub new_system : System
new_system = record { courses = new_array; students = new_array }

unfoldable pub add_student : System → CString → Option System
unfolding read_student push_back
add_student s line = elim (read_student line) [
  | none ↦ none
  | some (name, id) ↦ some (record s {
    students = push_back s.students (record { name = name; id = id; courses = new_array });
  })
]

unfoldable pub add_course : System → CString → System
unfolding read_course push_back
add_course s line =
    let (code, name) = read_course line in
    record s {
      courses = push_back s.courses (record { name = name; code = code; students = new_array });
    }

-- The student with the number of the line; with none the function ends without a return.
unfoldable pub select_student : System → CString → Option ℕ
unfolding read_student
select_student s line = elim (read_student line) [
  | none ↦ none
  | some (name, id) ↦ position (λ st. st.id ==ℤ id) s.students.items
]

unfoldable pub select_course : System → CString → Option ℕ
unfolding read_course
select_course s line = position (λ c. streq c.code (read_course line).0) s.courses.items

-- A student is removed from the first course of each code that the student has.
unfoldable pub leave_courses : ℤ → List CourseCopy → List Course → List Course
leave_courses id [] courses = courses
leave_courses id (t ∷ taken) courses =
    leave_courses id taken (update_first (λ c. streq c.code t.code) (remove_student id) courses)

-- The loop of `delete_student` and of `delete_course` from index j on, for n more tests of its
-- condition. `same` compares an element's key with that of the one at index i, which is to be deleted,
-- and `erase` is what is done where they are equal. The loop has no `break`: a round behind that one
-- (`gone`) reads the key of a deleted object. An earlier element with the same key would leave a
-- pointer to the deleted object in the array.
unfoldable pub deletion_loop :
    {A : Type 0}
    → (System → List A)
    → (A → Bool)
    → (ℕ → A → System → System)
    → ℕ
    → ℕ
    → ℕ
    → Bool
    → System
    → Option System
deletion_loop items same erase i zero j gone s = none
deletion_loop items same erase i (suc n) j gone s =
    let rest = deletion_loop items same erase i n (j + 1) in
    elim (get_elem? (items s) j) [
      | none ↦ some s
      | some o ↦
          if gone
          then none
          else if same o
          then if j == i then rest true (erase j o s) else none
          else rest false s
    ]

-- What is done with the student o at index j, before the loop goes on.
unfoldable pub erase_student : ℤ → ℕ → Student → System → System
unfolding leave_courses
erase_student id j o s = record {
  courses = record s.courses { items = leave_courses id o.courses.items s.courses.items };
  students = record s.students { items = remove_nth j s.students.items };
}

-- `delete_student` of the student at index i.
unfoldable pub delete_student : System → ℕ → Option System
unfolding deletion_loop erase_student
delete_student s i = elim (get_elem? s.students.items i) [
  | none ↦ none
  | some st ↦
      deletion_loop (λ t. t.students.items) (λ o. o.id ==ℤ st.id) (erase_student st.id) i
        (length s.students.items + 1) 0 false s
]

-- A course is removed from the first student of each number that the course has.
unfoldable pub leave_students : CString → List StudentCopy → List Student → List Student
leave_students code [] students = students
leave_students code (e ∷ enrolled) students =
    leave_students code enrolled (update_first (λ st. st.id ==ℤ e.id) (remove_course code) students)

-- What is done with the course o at index j.
unfoldable pub erase_course : CString → ℕ → Course → System → System
unfolding leave_students
erase_course code j o s = record {
  courses = record s.courses { items = remove_nth j s.courses.items };
  students = record s.students { items = leave_students code o.students.items s.students.items };
}

-- `delete_course` of the course at index k, with the same loop.
unfoldable pub delete_course : System → ℕ → Option System
unfolding deletion_loop erase_course
delete_course s k = elim (get_elem? s.courses.items k) [
  | none ↦ none
  | some c ↦
      deletion_loop (λ t. t.courses.items) (λ o. streq o.code c.code) (erase_course c.code) k
        (length s.courses.items + 1) 0 false s
]

-- The indices, from k on, of the courses that a student does not take.
unfoldable pub available_from : ℕ → List CourseCopy → List Course → List ℕ
available_from k taken [] = []
available_from k taken (c ∷ courses) =
    let rest = available_from (k + 1) taken courses in
    if any (λ t. streq c.code t.code) taken then rest else k ∷ rest

-- `list_courses`: the array has room for as many courses as the student does not take.
unfoldable pub list_courses : System → Student → Option (List ℕ)
unfolding available_from
list_courses s st =
    let room = length s.courses.items - length st.courses.items in
    let available = available_from 0 st.courses.items s.courses.items in
    if leb (length st.courses.items) (length s.courses.items)
    then (if leb (length available) room then some available else none)
    else none

-- Menu entry 3: the chosen course is taken by the student at index i.
unfoldable pub take_course : System → ℕ → ℕ → Option System
unfolding list_courses push_back
take_course s i choice = elim (get_elem? s.students.items i) [
  | none ↦ none
  | some st ↦ elim (list_courses s st) [
    | none ↦ none
    | some available ↦ if choice == 0 then some s else elim (get_elem? available (choice - 1)) [
      | none ↦ none
      | some k ↦ elim (get_elem? s.courses.items k) [
        | none ↦ none
        | some c ↦
            let t : CourseCopy = record { name = c.name; code = c.code } in
            let e : StudentCopy = record { name = st.name; id = st.id } in
            some record {
              courses = record s.courses { items = set s.courses.items k (add_to_course e c) };
              students = record s.students { items = set s.students.items i (add_to_student t st) };
            }
      ]
    ]
  ]
]

-- Menu entry 4: the chosen one of the student's courses is dropped. The removal moves the copies
-- behind it to the left, so the same place of the array then has the next copy, whose own list of
-- students is empty, or the null pointer, where the call that follows is undefined.
unfoldable pub drop_course : System → ℕ → ℕ → Option System
drop_course s i choice = elim (get_elem? s.students.items i) [
  | none ↦ none
  | some st ↦ if choice == 0 then some s else elim (get_elem? st.courses.items (choice - 1)) [
    | none ↦ none
    | some t ↦
        let dropped = remove_course t.code st in
        if ltb (choice - 1) (length dropped.courses.items)
        then some
            (record s { students = record s.students { items = set s.students.items i dropped } })
        else none
  ]
]

-- The choices of the menus that change the system.
pub data Action : Type 0 where
  adds_student : (line : CString) → Action
  adds_course : (line : CString) → Action
  deletes_student : (i : ℕ) → Action
  deletes_course : (k : ℕ) → Action
  takes_course : (i choice : ℕ) → Action
  drops_course : (i choice : ℕ) → Action

unfoldable pub run : System → Action → Option System
unfolding add_student add_course delete_student delete_course take_course drop_course
run s (adds_student line) = add_student s line
run s (adds_course line) = some (add_course s line)
run s (deletes_student i) = delete_student s i
run s (deletes_course k) = delete_course s k
run s (takes_course i choice) = take_course s i choice
run s (drops_course i choice) = drop_course s i choice
