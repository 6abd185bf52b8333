-- ===== src/Merge/Ranking/Submissions.antt =====
-- `countSubmittedAssignment` counts each student's different assignments.
use mathlib.Core.Option
use stu_mgmt_service.Prelude.{
  ◌≡◌, refl, sym, ap, ◌∙◌, inl, inr, String, string_eq, ◌===◌, ===_eq, List, [], ◌∷◌, map, none,
  some, length, Bool-cases, Option-cases, if◌then◌else◌, ◌∈◌, Distinct, set_add, to_set, map_get,
  map_set, map_get-map_set, none-ne-some, set_add-Distinct, set_add_mem, mem-set_add,
  mem-set_add_self, same_size, to_set-Distinct, mem-to_set, to_set_mem, ◌⊎◌,
}
use stu_mgmt_service.Merge.Ranking.{
  SubmissionDto, no_submissions, add_submission, add_submissions, count_submitted_assignment,
}

-- The assignments of one user's submissions, in order, with repetitions.
abbrev pub assignments_of : String → List SubmissionDto → List String
assignments_of u [] = []
assignments_of u (s ∷ ss) =
    let rest = assignments_of u ss in if s.user_id === u then s.assignment_id ∷ rest else rest

add_all : List String → List String → List String
add_all [] set = set
add_all (x ∷ xs) set = add_all xs (set_add x set)

map_get-add_submission :
    (s : SubmissionDto) (u : String) (m : List (String × List String)) (set : List String)
    → map_get u m ≡ some set
    → map_get u (add_submission s m)
      ≡ some (if s.user_id === u then set_add s.assignment_id set else set)
unfolding add_submission
map_get-add_submission s u m set e = elim (Bool-cases (s.user_id === u)) [
  | inl h ↦
      let same = ===_eq s.user_id u h in
      let p : map_get s.user_id m ≡ some set = ap (λ k. map_get k m) same ∙ e in
      rw (p, add_submission, h)
        (rw (map_get-map_set s.user_id u (set_add s.assignment_id set) m, h))
  | inr h ↦ elim (Option-cases (map_get s.user_id m)) [
    | inl p ↦ rw (p, add_submission, h) e
    | inr (old, p) ↦
        rw (p, add_submission, h)
          (rw (map_get-map_set s.user_id u (set_add s.assignment_id old) m, h) e)
  ]
]

map_get-add_submission-none :
    (s : SubmissionDto) (u : String) (m : List (String × List String))
    → map_get u m ≡ none
    → map_get u (add_submission s m) ≡ none
unfolding add_submission
map_get-add_submission-none s u m e = elim (Option-cases (map_get s.user_id m)) [
  | inl p ↦ rw (p, add_submission) e
  | inr (old, p) ↦ elim (Bool-cases (s.user_id === u)) [
    | inl h ↦ absurd (none-ne-some (sym e ∙ ap (λ k. map_get k m) (sym (===_eq s.user_id u h)) ∙ p))
    | inr h ↦
        rw (p, add_submission)
          (rw (map_get-map_set s.user_id u (set_add s.assignment_id old) m, h) e)
  ]
]

map_get-add_submissions :
    (ss : List SubmissionDto) (u : String) (m : List (String × List String)) (set : List String)
    → map_get u m ≡ some set
    → map_get u (add_submissions ss m) ≡ some (add_all (assignments_of u ss) set)
unfolding add_submissions add_all
map_get-add_submissions [] u m set e = e
map_get-add_submissions (s ∷ ss) u m set e =
    map_get-add_submissions ss u (add_submission s m) _ (map_get-add_submission s u m set e)
    ∙ elim (Bool-cases (s.user_id === u)) [ inl h ↦ rw h | inr h ↦ rw h ]

map_get-add_submissions-none :
    (ss : List SubmissionDto) (u : String) (m : List (String × List String))
    → map_get u m ≡ none
    → map_get u (add_submissions ss m) ≡ none
unfolding add_submissions
map_get-add_submissions-none [] u m e = e
map_get-add_submissions-none (s ∷ ss) u m e =
    map_get-add_submissions-none ss u (add_submission s m) (map_get-add_submission-none s u m e)

no_submissions_keep :
    (ids : List String) (u : String) (m : List (String × List String))
    → map_get u m ≡ some []
    → map_get u (no_submissions ids m) ≡ some []
unfolding no_submissions
no_submissions_keep [] u m e = e
no_submissions_keep (id ∷ ids) u m e =
    no_submissions_keep ids u (map_set id [] m)
      (map_get-map_set id u [] m ∙ elim (Bool-cases (id === u)) [ inl h ↦ rw h | inr h ↦ rw h e ])

map_get-no_submissions :
    (ids : List String) (u : String) (m : List (String × List String))
    → u ∈ ids
    → map_get u (no_submissions ids m) ≡ some []
unfolding no_submissions
map_get-no_submissions [] u m i = absurd i
map_get-no_submissions (id ∷ ids) u m (inl p) =
    no_submissions_keep ids u (map_set id [] m)
      (map_get-map_set id u [] m ∙ rw ((string_eq.beq_iff id u).1 (sym p)))
map_get-no_submissions (id ∷ ids) u m (inr i) = map_get-no_submissions ids u (map_set id [] m) i

map_get-no_submissions-none :
    (ids : List String) (u : String) (m : List (String × List String))
    → ¬ (u ∈ ids)
    → map_get u m ≡ none
    → map_get u (no_submissions ids m) ≡ none
unfolding no_submissions
map_get-no_submissions-none [] u m n e = e
map_get-no_submissions-none (id ∷ ids) u m n e =
    map_get-no_submissions-none ids u (map_set id [] m) (λ i. n (inr i))
      (map_get-map_set id u [] m ∙ elim (Bool-cases (id === u)) [
        | inl h ↦ absurd (n (inl (sym (===_eq id u h))))
        | inr h ↦ rw h e
      ])

map_get-map :
    (m : List (String × List String)) (u : String)
    → map_get u (map (λ (user_id, submitted). (user_id, length submitted)) m)
      ≡ Option.map length (map_get u m)
unfolding map_get
map_get-map [] u = refl
map_get-map ((k, v) ∷ m) u = elim (Bool-cases (k === u)) [
  | inl h ↦ rw h
  | inr h ↦ rw h (map_get-map m u)
]

add_all-Distinct : (xs set : List String) → Distinct set → Distinct (add_all xs set)
unfolding add_all
add_all-Distinct [] set d = d
add_all-Distinct (x ∷ xs) set d = add_all-Distinct xs (set_add x set) (set_add-Distinct x set d)

add_all_mem : (xs set : List String) (y : String) → y ∈ add_all xs set → (y ∈ xs) ⊎ (y ∈ set)
unfolding add_all
add_all_mem [] set y i = inr i
add_all_mem (x ∷ xs) set y i = elim (add_all_mem xs (set_add x set) y i) [
  | inl j ↦ inl (inr j)
  | inr j ↦ elim (set_add_mem x y set j) [ inl p ↦ inl (inl p) | inr k ↦ inr k ]
]

mem-add_all_set : (xs set : List String) (y : String) → y ∈ set → y ∈ add_all xs set
unfolding add_all
mem-add_all_set [] set y i = i
mem-add_all_set (x ∷ xs) set y i = mem-add_all_set xs (set_add x set) y (mem-set_add x y set i)

mem-add_all : (xs set : List String) (y : String) → y ∈ xs → y ∈ add_all xs set
unfolding add_all
mem-add_all [] set y i = absurd i
mem-add_all (x ∷ xs) set y (inl p) =
    mem-add_all_set xs (set_add x set) y (rw p (mem-set_add_self x set))
mem-add_all (x ∷ xs) set y (inr i) = mem-add_all xs (set_add x set) y i

length-add_all : (xs : List String) → length (add_all xs []) ≡ length (to_set xs)
length-add_all xs =
    same_size (add_all xs []) (to_set xs) (add_all-Distinct xs [] tt) (to_set-Distinct xs)
      (λ y i. mem-to_set y xs (elim (add_all_mem xs [] y i) [ inl j ↦ j | inr j ↦ absurd j ]))
      (λ y i. mem-add_all xs [] y (to_set_mem y xs i))

-- Each of the students has an entry, with the number of the different assignments submitted.
pub count_submitted_assignment_counts :
    (submissions : List SubmissionDto) (user_ids : List String) (u : String)
    → u ∈ user_ids
    → map_get u (count_submitted_assignment submissions user_ids)
      ≡ some (length (to_set (assignments_of u submissions)))
unfolding count_submitted_assignment
count_submitted_assignment_counts ss ids u i =
    map_get-map (add_submissions ss (no_submissions ids [])) u
    ∙ ap (Option.map length) (map_get-add_submissions ss u _ [] (map_get-no_submissions ids u [] i))
    ∙ ap some (length-add_all (assignments_of u ss))

-- Submissions of others are not counted.
pub count_submitted_assignment_others :
    (submissions : List SubmissionDto) (user_ids : List String) (u : String)
    → ¬ (u ∈ user_ids)
    → map_get u (count_submitted_assignment submissions user_ids) ≡ none
unfolding count_submitted_assignment map_get
count_submitted_assignment_others ss ids u n =
    map_get-map (add_submissions ss (no_submissions ids [])) u
    ∙ ap (Option.map length)
        (map_get-add_submissions-none ss u _ (map_get-no_submissions-none ids u [] n refl))
