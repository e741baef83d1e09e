-- ===== src/X360/Submissions.antt =====
-- Feedback that was submitted stays as it is.
use croar_backend_new.Prelude.{
  ℕ, ◌≡◌, refl, ap, sym, ◌∙◌, true, false, some, List, [], ◌∷◌, ◌++◌, map, inl, inr, Bool-cases,
  select, find_first, update_first, ◌==◌, arith,
}
use croar_backend_new.Http.{ok, raise_if_ok, found_or_ok, ok-inj}
use croar_backend_new.X360.{
  X360AssessmentAssignment, X360AssessmentResponse, RelationType, Ratee, Answer, Tables,
  is_assignment, is_completed, response, finished, create_and_start_cycle, submit_assessment,
}

-- The operations on cycles and their feedback, where they succeed.
pub data Step (s t : Tables) : Type 0 where
  creating :
      (fresh : ℕ → ℕ → RelationType → ℕ) (cycle : ℕ) (ratees : List Ratee)
      → create_and_start_cycle fresh cycle ratees s ≡ t
      → Step s t
  submitting : (id : ℕ) (answers : List Answer) → submit_assessment id answers s ≡ ok t → Step s t

module _ (id : ℕ) where
  abbrev pub answers_of : List X360AssessmentResponse → List X360AssessmentResponse
  answers_of = select (λ r. r.assignment == id)

  -- The assignment with the id is there and completed.
  abbrev pub IsDone : List X360AssessmentAssignment → Type 0
  IsDone table =
      (a : X360AssessmentAssignment) × (find_first (is_assignment id) table ≡ some a)
      × (is_completed a.status ≡ true)

  found_append :
      (xs ys : List X360AssessmentAssignment) (a : X360AssessmentAssignment)
      → find_first (is_assignment id) xs ≡ some a
      → find_first (is_assignment id) (xs ++ ys) ≡ some a
  found_append [] ys a h = absurd cc
  found_append (x ∷ xs) ys a h = elim (Bool-cases (is_assignment id x)) [
    | inl y ↦ rw y (rw (← h) (rw y refl))
    | inr n ↦ rw n (found_append xs ys a (rw (← h) (rw n refl)))
  ]

  IsDone-append : (xs ys : List X360AssessmentAssignment) → IsDone xs → IsDone (xs ++ ys)
  IsDone-append xs ys (a, f, c) = (a, found_append xs ys a f, c)

  -- A submission of another assignment.
  found_other :
      (other : ℕ) (xs : List X360AssessmentAssignment)
      → (other == id) ≡ false
      → find_first (is_assignment id) (update_first (is_assignment other) finished xs)
        ≡ find_first (is_assignment id) xs
  found_other other [] d = refl
  found_other other (x ∷ xs) d = elim (Bool-cases (is_assignment other x)) [
    | inl y ↦ let n : is_assignment id x ≡ false = ground (arith, y, d) in rw (y, n) refl
    | inr m ↦ elim (Bool-cases (is_assignment id x)) [
      | inl z ↦ rw (m, z) refl
      | inr n ↦ rw (m, n) (found_other other xs d)
    ]
  ]

  answers_append :
      (rs : List X360AssessmentResponse) (other : ℕ) (answers : List Answer)
      → (other == id) ≡ false
      → answers_of (rs ++ map (response other) answers) ≡ answers_of rs
  answers_append [] other [] d = refl
  answers_append [] other (a ∷ answers) d = rw d (answers_append [] other answers d)
  answers_append (r ∷ rs) other answers d = elim (Bool-cases (r.assignment == id)) [
    | inl y ↦
        rw y (ap (λ (xs : List X360AssessmentResponse). r ∷ xs) (answers_append rs other answers d))
    | inr n ↦ rw n (answers_append rs other answers d)
  ]

  -- Once an assignment is completed, creating a cycle and submitting feedback, of this assignment or of
  -- another, leave it completed and the responses of this assignment as they are.
  pub step-IsDone :
      (s t : Tables)
      → Step s t
      → IsDone s.assignments
      → IsDone t.assignments × (answers_of t.responses ≡ answers_of s.responses)
  unfolding create_and_start_cycle submit_assessment
  step-IsDone s t (creating fresh cycle ratees e) d =
      rw (← e) (IsDone-append s.assignments _ d, refl)
  step-IsDone s t (submitting other answers e) d =
      let a = found_or_ok (find_first (is_assignment other) s.assignments) _ _ t e in
      let k = raise_if_ok (is_completed a.0.status) _ _ t a.2 in
      elim (Bool-cases (other == id)) [
        | inl y ↦
            let q : other ≡ id = ground arith in
            let f : some a.0 ≡ some d.0 = sym a.1 ∙ rw q d.1 in
            let x : a.0 ≡ d.0 = cc in
            let c : is_completed a.0.status ≡ true = rw x d.2 in absurd (ground (arith, c, k))
        | inr n ↦ rw (← ok-inj _ t k.1) (
          (d.0, found_other other s.assignments n ∙ d.1, d.2),
          answers_append s.responses other answers n,
        )
      ]
