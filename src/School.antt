-- ===== src/School.antt =====
-- Object Oriented Programming Spring/PA3/PA3: students, courses and who takes which course. A
-- pointer into one of the two arrays of the system is an index. `none` is an uncaught exception or
-- undefined behaviour.
pub mod Menu
pub mod Enrolment
pub mod Leaving
pub mod Deletion
pub mod Steps
pub mod Listing
pub mod Taking
pub mod Runs
pub mod Examples
use homeworks.Prelude.{
  ℕ, zero, suc, ◌+◌, ◌-◌, ◌*◌, ◌^◌, Bool, true, false, ◌&&◌, List, [], ◌∷◌, ◌++◌, Option, none,
  some, ltb, leb, ◌==◌, if◌then◌else◌, length, get_elem?, set, any, remove_first, update_first,
  position, remove_nth, CString, streq, ℤ, pos, negsuc, ◌-ℤ◌, ◌==ℤ◌,
}
use homeworks.Machine.Lexer.{isspace, tokenize, magnitude}

-- A dynamic array: whether it is allocated, for how many elements it is the next time or now, and
-- the elements.
pub record Array (A : Type 0) : Type 0 where
  pub allocated : Bool
  pub size : ℕ
  pub items : List A

-- The copies that a course keeps of its students and a student of its courses have a name and a key
-- and no list of their own.
pub record StudentCopy : Type 0 where
  pub name : CString
  pub id : ℤ

pub record CourseCopy : Type 0 where
  pub name : CString
  pub code : CString

pub record Student : Type 0 where
  pub name : CString
  pub id : ℤ
  pub courses : Array CourseCopy

pub record Course : Type 0 where
  pub name : CString
  pub code : CString
  pub students : Array StudentCopy

pub record System : Type 0 where
  pub courses : Array Course
  pub students : Array Student

abbrev pub new_array : {A : Type 0} → Array A
new_array = record { allocated = false; size = 10; items = [] }

-- An element is added behind the others; a full array is copied into one twice as large. An array
-- that is not allocated yet has no elements.
unfoldable pub push_back : {A : Type 0} → Array A → A → Array A
push_back a x = record {
  allocated = true;
  size = if a.allocated && leb a.size (length a.items) then a.size * 2 else a.size;
  items = a.items ++ x ∷ [];
}

-- `Course::remove_student` and `Student::remove_course`
abbrev pub remove_student : ℤ → Course → Course
remove_student id c = record c {
  students = record c.students { items = remove_first (λ e. e.id ==ℤ id) c.students.items };
}

abbrev pub remove_course : CString → Student → Student
remove_course code s = record s {
  courses = record s.courses { items = remove_first (λ t. streq t.code code) s.courses.items };
}

-- `Course::add_student` and `Student::add_course`, which copy what they get.
abbrev pub add_to_course : StudentCopy → Course → Course
add_to_course e c = record c { students = push_back c.students e }

abbrev pub add_to_student : CourseCopy → Student → Student
add_to_student t s = record s { courses = push_back s.courses t }

-- `if (!name.empty ()) name += " ";`
abbrev spaced : CString → CString
spaced [] = []
spaced (c ∷ name) = (c ∷ name) ++ 32 ∷ []

-- The loop over the words of a line: the name with a space behind each of its words, and the last
-- word, the number, unless white space follows it.
unfoldable pub read_words : Bool → List CString → CString → CString × Option CString
read_words at_end [] name = (name, none)
read_words at_end (word ∷ []) name =
    if at_end then (spaced name, some word) else (spaced name ++ word, none)
read_words at_end (word ∷ v ∷ words) name = read_words at_end (v ∷ words) (spaced name ++ word)

unfoldable pub ends_in_word : CString → Bool
ends_in_word [] = false
ends_in_word (c ∷ []) = if isspace c then false else true
ends_in_word (c ∷ d ∷ s) = ends_in_word (d ∷ s)

-- `stoi` of a word, which throws where there is no number or it does not fit.
unfoldable pub stoi : CString → Option ℤ
unfolding magnitude
stoi [] = none
stoi (c ∷ s) =
    if c == b'-'
    then elim (magnitude s) [
      | none ↦ none
      | some n ↦ if leb n (2 ^ 31) then some (pos 0 -ℤ pos n) else none
    ]
    else elim (magnitude (if c == b'+' then s else c ∷ s)) [
      | none ↦ none
      | some n ↦ if ltb n (2 ^ 31) then some (pos n) else none
    ]

-- The line that names a student.
unfoldable pub read_student : CString → Option (CString × ℤ)
unfolding read_words ends_in_word stoi tokenize
read_student line =
    let (name, word) = read_words (ends_in_word line) (tokenize line) [] in
    elim word [
      | none ↦ some (name, pos 0)
      | some w ↦ elim (stoi w) [ none ↦ none | some id ↦ some (name, id) ]
    ]

-- The first word of a line, and the rest of the line without one leading space.
unfoldable pub word_of : CString → CString × CString
word_of [] = ([], [])
word_of (c ∷ s) = let rest = word_of s in if isspace c then ([], c ∷ s) else (c ∷ rest.0, rest.1)

unfoldable pub skip_spaces : CString → CString
skip_spaces [] = []
skip_spaces (c ∷ s) = let rest = skip_spaces s in if isspace c then rest else c ∷ s

abbrev without_space : CString → CString
without_space [] = []
without_space (c ∷ s) = if c == 32 then s else c ∷ s

-- The line that names a course: its code and its name.
unfoldable pub read_course : CString → CString × CString
unfolding word_of skip_spaces
read_course line = let (code, rest) = word_of (skip_spaces line) in (code, without_space rest)
