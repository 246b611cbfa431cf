-- ===== src/School/Taking.antt =====
-- Taking and dropping a course.
use homeworks.Prelude.{
  get_elem?-lt, any-get, length-remove_first, get_elem?-some, get_elem?-set_self, arith, ◌<◌, ℕ,
  ◌-◌, ◌≤◌, ◌≡◌, ◌⊎◌, inl, inr, refl, ap, ◌∙◌, true, false, [], ◌∷◌, none, some, ltb, ◌==◌,
  Bool-cases, length, get_elem?, set, any, streq, streq_self, ◌==ℤ◌, ==ℤ_self, All-append_one,
  All-set, All-remove_first, All-get, All-map, any-append_left, any-append_last,
  IsUnique-remove_first, IsUnique-append_one, IsUnique-set, any-cong, streq_comm, any-set,
  any-set_new,
}
use homeworks.School.{
  CourseCopy, Student, Course, System, push_back, remove_course, add_to_course, add_to_student,
}
use homeworks.School.Menu.{available_from, take_course, drop_course}
use homeworks.School.Enrolment.{
  has, IsListed, same_code, same_id, same_copy, TakesOnce, has_here, InOrder, has_here_mono,
  IsListed-mono,
}
use homeworks.School.Listing.{available_from-get, list_courses-fits}

-- The student at index i takes the course at index k.
abbrev taken_system : System → ℕ → ℕ → Student → Course → System
taken_system s i k st c = record {
  courses = record s.courses {
    items = set s.courses.items k (add_to_course (record { name = st.name; id = st.id }) c);
  };
  students = record s.students {
    items = set s.students.items i (add_to_student (record { name = c.name; code = c.code }) st);
  };
}

taken_system-InOrder :
    (s : System) (i k : ℕ) (st : Student) (c : Course)
    → InOrder s
    → get_elem? s.students.items i ≡ some st
    → get_elem? s.courses.items k ≡ some c
    → any (λ t. streq c.code t.code) st.courses.items ≡ false
    → InOrder (taken_system s i k st c)
unfolding push_back
taken_system-InOrder s i k st c v e f free =
    let d = add_to_course (record { name = st.name; id = st.id }) c in
    let more : (o : Student) → IsListed s.courses.items o → IsListed (set s.courses.items k d) o =
      λ o l.
        IsListed-mono s.courses.items (set s.courses.items k d) o
          (λ code. any-set (has_here code o.id) s.courses.items k f (
            has_here_mono code o.id c d refl (
              any-append_left (λ z. z.id ==ℤ o.id) c.students.items
                (record { name = st.name; id = st.id } ∷ []))))
          l in
    record {
      codes = IsUnique-set same_code s.courses.items k d f (λ z. (refl, refl)) v.codes;
      ids =
          IsUnique-set same_id s.students.items i
            (add_to_student (record { name = c.name; code = c.code }) st) e (λ z. (refl, refl))
            v.ids;
      once = All-set TakesOnce s.students.items i v.once (
          IsUnique-append_one same_copy st.courses.items (record { name = c.name; code = c.code })
            (All-get TakesOnce s.students.items i v.once e)
            (any-cong (λ t. streq t.code c.code) (λ t. streq c.code t.code)
                (λ t. streq_comm t.code c.code) st.courses.items
              ∙ free));
      listed =
          All-set (IsListed (set s.courses.items k d)) s.students.items i
            (All-map more s.students.items v.listed)
            (All-append_one (λ t. has (set s.courses.items k d) t.code st.id ≡ true)
              st.courses.items
              (more st (All-get (IsListed s.courses.items) s.students.items i v.listed e))
              (any-set_new (has_here c.code st.id) s.courses.items k d f (
                rw (streq_self c.code) (
                  any-append_last (λ z. z.id ==ℤ st.id) c.students.items
                    (record { name = st.name; id = st.id }) (==ℤ_self st.id)))));
    }

-- A choice among the courses that are listed, or none, is carried out.
pub take_course-InOrder :
    (s : System) (i choice : ℕ) (st : Student)
    → InOrder s
    → get_elem? s.students.items i ≡ some st
    → choice ≤ length (available_from 0 st.courses.items s.courses.items)
    → (t : System) × (take_course s i choice ≡ some t) × InOrder t
unfolding take_course
take_course-InOrder s i choice st v e h =
    let (listed, sum) = list_courses-fits s i st v e in
    elim (Bool-cases (choice == 0)) [
      | inl up ↦ (s, rw (take_course, e, listed, up) refl, v)
      | inr goes_on ↦
          let (m, at_choice) =
            get_elem?-some (available_from 0 st.courses.items s.courses.items) (choice - 1)
              (ground arith) in
          let (k, c, index, there, free) =
            available_from-get 0 st.courses.items s.courses.items (choice - 1) m at_choice in
          let at_m : get_elem? s.courses.items m ≡ some c =
            ap (get_elem? s.courses.items) (omega (arith, index)) ∙ there in
          (
            taken_system s i m st c,
            rw (take_course, e, listed, goes_on, at_choice, at_m) refl,
            taken_system-InOrder s i m st c v e at_m free,
          )
    ]

-- The one of the student's courses that is chosen to be dropped is taken from the student, and the
-- course itself still lists the student; but where it is the last one, the behaviour is undefined.
pub drop_course-lists :
    (s : System) (i choice : ℕ) (st : Student) (t : CourseCopy)
    → InOrder s
    → get_elem? s.students.items i ≡ some st
    → 0 < choice
    → get_elem? st.courses.items (choice - 1) ≡ some t
    → ((u : System) × (choice < length st.courses.items)
        × (drop_course s i choice ≡ some u)
        × InOrder u
        × (get_elem? u.students.items i ≡ some (remove_course t.code st))
        × (has u.courses.items t.code st.id ≡ true))
      ⊎ ((choice ≡ length st.courses.items) × (drop_course s i choice ≡ none))
unfolding drop_course
drop_course-lists s i choice st t v e lo at_t =
    let chosen : (choice == 0) ≡ false = ground arith in
    let inside = get_elem?-lt st.courses.items (choice - 1) at_t in
    let shorter =
      length-remove_first (λ u. streq u.code t.code) st.courses.items
        (any-get (λ u. streq u.code t.code) st.courses.items (choice - 1) at_t
          (streq_self t.code)) in
    elim (Bool-cases (ltb (choice - 1) (length (remove_course t.code st).courses.items))) [
      | inl others ↦ inl (
        record s {
          students = record s.students { items = set s.students.items i (remove_course t.code st) };
        },
        ground (arith, shorter),
        rw (drop_course, e, chosen, at_t, others) refl,
        record {
          codes = v.codes;
          ids =
              IsUnique-set same_id s.students.items i (remove_course t.code st) e
                (λ z. (refl, refl)) v.ids;
          once = All-set TakesOnce s.students.items i v.once (
              IsUnique-remove_first same_copy (λ u. streq u.code t.code) st.courses.items
                (All-get TakesOnce s.students.items i v.once e));
          listed = All-set (IsListed s.courses.items) s.students.items i v.listed (
              All-remove_first (λ u. has s.courses.items u.code st.id ≡ true)
                (λ u. streq u.code t.code) st.courses.items
                (All-get (IsListed s.courses.items) s.students.items i v.listed e));
        },
        get_elem?-set_self s.students.items i (remove_course t.code st) e,
        All-get (λ u. has s.courses.items u.code st.id ≡ true) st.courses.items (choice - 1)
            (All-get (IsListed s.courses.items) s.students.items i v.listed e) at_t,
      )
      | inr last ↦
          inr (ground (arith, shorter, inside), rw (drop_course, e, chosen, at_t, last) refl)
    ]
