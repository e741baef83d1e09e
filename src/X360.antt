-- ===== src/X360.antt =====
-- app/router/enterprise/x360.py: the creation of a cycle and the submission of feedback. Tables are in
-- the order of insertion; ids of new rows are left out where nothing reads them. start_cycle of
-- app/services/x360_service.py, which the program does not call, is left out.
pub mod Submissions
mod Examples
use croar_backend_new.Prelude.{
  ℕ, suc, Bool, true, false, not, ◌&&◌, Option, none, some, List, [], ◌∷◌, ◌++◌, map, any, select,
  find_first, update_first, ◌==◌, if◌then◌else◌,
}
use croar_backend_new.Text.{Text}
use croar_backend_new.Http.{Outcome, ok, not_found, conflict, raise_if, found_or}

pub data RelationType : Type 0 where
  self manager peer report : RelationType

pub data AssignmentStatus : Type 0 where
  pending completed : AssignmentStatus

pub record X360AssessmentAssignment : Type 0 where
  pub id : ℕ
  pub cycle : ℕ
  pub ratee : ℕ
  pub rater : ℕ
  pub relation : RelationType
  pub status : AssignmentStatus

pub record X360AssessmentResponse : Type 0 where
  pub assignment : ℕ
  pub question : ℕ
  pub answer_value : Option ℕ
  pub answer_text : Option Text

pub record Tables : Type 0 where
  pub assignments : List X360AssessmentAssignment
  pub responses : List X360AssessmentResponse

-- An employee who is rated.
pub record Ratee : Type 0 where
  pub id : ℕ
  pub reporting_to : Option ℕ

abbrev new_assignment : ℕ → ℕ → (ℕ × RelationType) → ℕ → X360AssessmentAssignment
new_assignment cycle ratee (rater, relation) id = record {
  id = id;
  cycle = cycle;
  ratee = ratee;
  rater = rater;
  relation = relation;
  status = pending;
}

abbrev of_manager : Option ℕ → List (ℕ × RelationType)
of_manager none = []
of_manager (some m) = (m, manager) ∷ []

-- The raters of one ratee; `fresh` gives the ids of new rows.
abbrev assignments_for :
    (ℕ → ℕ → RelationType → ℕ) → ℕ → ℕ → List (ℕ × RelationType) → List X360AssessmentAssignment
assignments_for fresh cycle ratee [] = []
assignments_for fresh cycle ratee ((rater, relation) ∷ raters) =
    new_assignment cycle ratee (rater, relation) (fresh ratee rater relation)
    ∷ assignments_for fresh cycle ratee raters

-- The rows of a cycle that is created: each ratee and the manager.
unfoldable pub cycle_rows :
    (ℕ → ℕ → RelationType → ℕ) → ℕ → List Ratee → List X360AssessmentAssignment
cycle_rows fresh cycle [] = []
cycle_rows fresh cycle (r ∷ rs) =
    assignments_for fresh cycle r.id ((r.id, self) ∷ of_manager r.reporting_to)
    ++ cycle_rows fresh cycle rs

unfoldable pub create_and_start_cycle :
    (ℕ → ℕ → RelationType → ℕ) → ℕ → List Ratee → Tables → Tables
create_and_start_cycle fresh cycle ratees s = record s {
  assignments = s.assignments ++ cycle_rows fresh cycle ratees;
}

pub record Answer : Type 0 where
  pub question : ℕ
  pub answer_value : Option ℕ
  pub answer_text : Option Text

abbrev pub is_assignment : ℕ → X360AssessmentAssignment → Bool
is_assignment id a = a.id == id

abbrev pub is_completed : AssignmentStatus → Bool
is_completed completed = true
is_completed pending = false

abbrev pub response : ℕ → Answer → X360AssessmentResponse
response id a = record {
  assignment = id;
  question = a.question;
  answer_value = a.answer_value;
  answer_text = a.answer_text;
}

abbrev pub finished : X360AssessmentAssignment → X360AssessmentAssignment
finished a = record a { status = completed }

unfoldable pub submit_assessment : ℕ → List Answer → Tables → Outcome Tables
submit_assessment id answers s =
    found_or (find_first (is_assignment id) s.assignments) not_found (λ a.
      raise_if (is_completed a.status) conflict (
        ok (record {
          assignments = update_first (is_assignment id) finished s.assignments;
          responses = s.responses ++ map (response id) answers;
        })))
