-- ===== src/X360/Examples.antt =====
-- An employee who reports to a manager, and the feedback of both.
use croar_backend_new.Prelude.{ℕ, ◌+◌, ◌*◌, ◌≡◌, refl, none, some, List, [], ◌∷◌}
use croar_backend_new.Http.{Outcome, ok, raise, conflict}
use croar_backend_new.X360.{
  RelationType, completed, self, manager, Ratee, Answer, Tables, cycle_rows, create_and_start_cycle,
  submit_assessment,
}
use croar_backend_new.X360.Submissions.{IsDone, answers_of, submitting, step-IsDone}

abbrev number : RelationType → ℕ
number self = 0
number manager = 1
number _ = 2

abbrev fresh : ℕ → ℕ → RelationType → ℕ
fresh ratee rater relation = 100 * ratee + 10 * rater + number relation

abbrev employee : Ratee
employee = record { id = 5; reporting_to = some 7 }

program : Unit {0}
unfolding cycle_rows create_and_start_cycle submit_assessment
program = tt

abbrev answers : List Answer
answers = record { question = 1; answer_value = some 4; answer_text = none } ∷ []

abbrev or_empty : Outcome Tables → Tables
or_empty (ok t) = t
or_empty (raise e) = record { assignments = []; responses = [] }

abbrev opened : Tables
opened =
    create_and_start_cycle fresh 1 (employee ∷ []) (record { assignments = []; responses = [] })

abbrev once : Tables
once = or_empty (submit_assessment 550 answers opened)

twice : submit_assessment 550 answers once ≡ raise conflict
unfolding program
twice = refl

abbrev both : Tables
both = or_empty (submit_assessment 571 answers once)

step-IsDone_example :
    IsDone 550 both.assignments × (answers_of 550 both.responses ≡ answers_of 550 once.responses)
unfolding program
step-IsDone_example = step-IsDone 550 once both (submitting 571 answers refl) (
  record { id = 550; cycle = 1; ratee = 5; rater = 5; relation = self; status = completed },
  refl,
  refl,
)
