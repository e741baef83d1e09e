-- ===== src/Automation/Examples.antt =====
-- A job of three stages, whose first two stages have a mail that moves the candidate on.
use Prim.Native.String.{String}
use croar_backend_new.Prelude.{
  ℕ, ◌≡◌, refl, Bool, true, false, none, some, List, [], ◌∷◌, ltb, any, map,
}
use croar_backend_new.Prelude.Int.{pos}
use croar_backend_new.Text.{Text, codes}
use croar_backend_new.Text.Numbers.{read_int}
use croar_backend_new.Interview.{schedule_candidate_interview}
use croar_backend_new.Automation.{
  Pipeline, Application, Job, State, Run, done, MailAutomation, EmailLog, sent,
  send_automated_email, schedule_automated_email, send_assessment_invitation,
  initiate_onboarding_process, mail, auto_move, mail_loop, assess, assessment_loop, interview_loop,
  onboarding_loop, after_mails, trigger, mails_at, trigger_automations,
}
use croar_backend_new.Automation.Criteria.{
  evaluate_criteria, Admits, evaluate_criteria-Admits, evaluate_criteria_other,
}
use croar_backend_new.Automation.Steps.{is_mover}
use croar_backend_new.Automation.Stages.{is_finished, Advances, trigger-Advances}
use croar_backend_new.Automation.Rows.{IsSound, trigger_automations-IsSound}
use croar_backend_new.Automation.Termination.{trigger_automations_finished}

-- A mail that moves on, for the stage.
abbrev mover : ℕ → ℕ → String → MailAutomation
mover id stage criteria = record {
  id = id;
  job = 1;
  stage_index = stage;
  is_enabled = true;
  template = 3;
  criteria = codes criteria;
  is_immediate = true;
  auto_move = true;
  send_at = none;
}

abbrev with_mails : List MailAutomation → Pipeline
with_mails mails = record {
  templates = 3 ∷ [];
  mails = mails;
  assessments = [];
  interviews = [];
  onboardings = record { job = 1; stage_index = 2; is_enabled = true; template = none } ∷ [];
  onboarding_templates = [];
  has_in_progress = true;
}

abbrev hiring : Pipeline
hiring = with_mails (mover 1 0 "ai_score > 80" ∷ mover 2 1 "" ∷ [])

-- The same stage has two mails that move on.
abbrev doubled : Pipeline
doubled = with_mails (mover 1 0 "" ∷ mover 2 0 "" ∷ [])

abbrev applicant : Application
applicant = record { id = 5; company = 9 }

abbrev opening : Job
opening = record { id = 1; company = 9; stages = 3 }

abbrev start : State
start = record { current_stage = 0; logs = []; tasks = []; schedules = []; onboardings = [] }

abbrev run_with : Pipeline → ℕ → Run
run_with p score =
    trigger_automations read_int ltb p 100 739_642 score (some (applicant, opening)) 0 start

abbrev log : EmailLog
log = record { application = 5; automation = none; template = some 3; status = sent; sent_at = 100 }

abbrev hired : State
hired = record {
  current_stage = 2;
  logs = log ∷ log ∷ [];
  tasks = [];
  schedules = [];
  onboardings = record { application = 5; company = 9; template = none; documents = [] } ∷ [];
}

program : Unit {0}
unfolding trigger_automations trigger after_mails mail_loop auto_move mail assessment_loop assess
    interview_loop onboarding_loop initiate_onboarding_process send_automated_email
    schedule_automated_email send_assessment_invitation evaluate_criteria
    schedule_candidate_interview
program = tt

moves_on : run_with hiring 90 ≡ done hired
unfolding program
moves_on = refl

held_back : run_with hiring 80 ≡ done start
unfolding program
held_back = refl

-- Two such mails move the candidate past a stage.
skips_stage : run_with doubled 90 ≡ done hired
unfolding program
skips_stage = refl

-- What the column's comment gives as an example is no gate, and `>=` lets nobody through.
gates :
    (evaluate_criteria read_int ltb 10 (codes "AI score > 80") ≡ true)
    × (evaluate_criteria read_int ltb 90 (codes "ai_score >= 80") ≡ false)
    × (evaluate_criteria read_int ltb 90 (codes "ai_score > 80") ≡ true)
    × (evaluate_criteria read_int ltb 90 (codes "AI_score < 80") ≡ false)
unfolding evaluate_criteria
gates = (refl, refl, refl, refl)

passing : evaluate_criteria read_int ltb 90 (codes "ai_score > 80") ≡ true
unfolding evaluate_criteria
passing = refl

evaluate_criteria-Admits_example : Admits read_int ltb 90 (codes "ai_score > 80")
evaluate_criteria-Admits_example =
    evaluate_criteria-Admits read_int ltb 90 (codes "ai_score > 80") refl refl passing

evaluate_criteria_other_example : evaluate_criteria read_int ltb 10 (codes "AI score > 80") ≡ true
evaluate_criteria_other_example =
    evaluate_criteria_other read_int ltb 10 (codes "AI score > 80") refl

abbrev gate : Text → Bool
gate = evaluate_criteria read_int ltb 90

triggered : trigger hiring gate 100 739_642 applicant opening 4 0 start ≡ done hired
unfolding program
triggered = refl

trigger-Advances_example :
    Advances hiring gate 100 739_642 applicant opening start hired
    × (any (is_mover gate) (mails_at hiring gate 100 739_642 applicant opening 0) ≡ false
        → hired.current_stage ≡ start.current_stage)
trigger-Advances_example =
    trigger-Advances hiring gate 100 739_642 applicant opening 4 0 start hired triggered

-- The first stage has an interview as well.
abbrev interviewing : Pipeline
interviewing = record hiring {
  interviews =
      record {
        job = 1;
        stage_index = 0;
        is_enabled = true;
        criteria = [];
        automation = record {
          id = 4;
          start_date = none;
          end_date = none;
          start_time = codes "09:00";
          end_time = codes "10:00";
          duration = pos 30;
          daily_limit = pos 2;
          time_slots = [];
        };
      }
      ∷ [];
}

abbrev or_start : Run → State
or_start (done s) = s
or_start _ = start

abbrev invited : State
invited = or_start (run_with interviewing 90)

-- The two mails of the interview name no template.
invited_logs : map (λ l. l.template) invited.logs ≡ none ∷ none ∷ some 3 ∷ some 3 ∷ []
unfolding program
invited_logs = refl

goes_on : run_with interviewing 90 ≡ done invited
unfolding program
goes_on = refl

trigger_automations-IsSound_example : IsSound interviewing invited
trigger_automations-IsSound_example =
    trigger_automations-IsSound read_int ltb interviewing 100 739_642 90 (some (applicant, opening))
      0 start invited goes_on (tt, tt, tt)

trigger_automations_finished_example :
    (is_finished (run_with doubled 90) ≡ true)
    × (trigger doubled gate 100 739_642 applicant opening 10 0 start ≡ run_with doubled 90)
trigger_automations_finished_example =
    trigger_automations_finished read_int ltb doubled 100 739_642 90 applicant opening 0 start 6
