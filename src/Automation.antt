-- ===== src/Automation.antt =====
-- app/services/enterprise/automation_service.py: what a candidate's arrival at a hiring stage sets
-- off. The tables of automations and templates are a `Pipeline`; the state has the stage of the
-- application and the rows that the automations add. Rendering and sending a mail is left out, and so
-- are the activities of an onboarding. Times are seconds, dates ordinals. A ValueError carries no state:
-- what the scheduling of an interview has committed before it stays.
pub mod Criteria
pub mod Stages
pub mod Steps
pub mod Rows
pub mod Termination
mod Examples
use croar_backend_new.Prelude.{
  ℕ, zero, suc, Bool, true, false, not, ◌&&◌, Option, none, some, List, [], ◌∷◌, ◌==◌, ltb,
  if◌then◌else◌, select, find_first, any, contains,
}
use croar_backend_new.Text.{Text}
use croar_backend_new.Interview.{
  InterviewAutomation, InterviewSchedule, is_scheduled, schedule_candidate_interview,
}
use croar_backend_new.Automation.Criteria.{evaluate_criteria}

pub record MailAutomation : Type 0 where
  pub id : ℕ
  pub job : ℕ
  pub stage_index : ℕ
  pub is_enabled : Bool
  pub template : ℕ
  pub criteria : Text
  pub is_immediate : Bool
  pub auto_move : Bool
  pub send_at : Option ℕ

pub record AssessmentAutomation : Type 0 where
  pub id : ℕ
  pub job : ℕ
  pub stage_index : ℕ
  pub is_enabled : Bool
  pub email_template : Option ℕ
  pub criteria : Text
  pub is_immediate : Bool
  pub send_at : Option ℕ

pub record InterviewRound : Type 0 where
  pub job : ℕ
  pub stage_index : ℕ
  pub is_enabled : Bool
  pub criteria : Text
  pub automation : InterviewAutomation

pub record OnboardingAutomation : Type 0 where
  pub job : ℕ
  pub stage_index : ℕ
  pub is_enabled : Bool
  pub template : Option ℕ

pub record OnboardingTemplate : Type 0 where
  pub id : ℕ
  pub company : ℕ
  pub required_documents : List Text

pub record Pipeline : Type 0 where
  pub templates : List ℕ
  pub mails : List MailAutomation
  pub assessments : List AssessmentAutomation
  pub interviews : List InterviewRound
  pub onboardings : List OnboardingAutomation
  pub onboarding_templates : List OnboardingTemplate
  pub has_in_progress : Bool

-- `stages` is the length of `workflow_stages`.
pub record Job : Type 0 where
  pub id : ℕ
  pub company : ℕ
  pub stages : ℕ

pub record Application : Type 0 where
  pub id : ℕ
  pub company : ℕ

pub data EmailStatus : Type 0 where
  sent scheduled : EmailStatus

pub record EmailLog : Type 0 where
  pub application : ℕ
  pub automation : Option ℕ
  pub template : Option ℕ
  pub status : EmailStatus
  pub sent_at : ℕ

-- A task of the queue, with the time it is due.
pub data Task : Type 0 where
  email_task assessment_task : ℕ → ℕ → Task

pub record Onboarding : Type 0 where
  pub application : ℕ
  pub company : ℕ
  pub template : Option ℕ
  pub documents : List Text

pub record State : Type 0 where
  pub current_stage : ℕ
  pub logs : List EmailLog
  pub tasks : List Task
  pub schedules : List InterviewSchedule
  pub onboardings : List Onboarding

-- How a call ends: with a state, with a ValueError, or it has not ended on the fuel given.
pub data Run : Type 0 where
  done : State → Run
  value_error unfinished : Run

abbrev pub then_done : Run → (State → Run) → Run
then_done (done s) k = k s
then_done value_error k = value_error
then_done unfinished k = unfinished

-- `value or default`
abbrev or_now : Option ℕ → ℕ → ℕ
or_now none now = now
or_now (some at) now = at

-- Whether the template of a log is there, where it names one.
abbrev pub is_known : List ℕ → Option ℕ → Bool
is_known templates none = true
is_known templates (some t) = contains t templates

abbrev pub add_log : EmailLog → State → State
add_log l s = record s { logs = l ∷ s.logs }

abbrev pub add_task : Task → State → State
add_task t s = record s { tasks = t ∷ s.tasks }

unfoldable pub send_automated_email : Pipeline → ℕ → Application → MailAutomation → State → State
send_automated_email p now a m s =
    if contains m.template p.templates
    then add_log
        (record {
          application = a.id;
          automation = none;
          template = some m.template;
          status = sent;
          sent_at = now;
        })
        s
    else s

unfoldable pub schedule_automated_email :
    Pipeline → Application → MailAutomation → ℕ → State → State
schedule_automated_email p a m at s =
    if contains m.template p.templates
    then add_log
        (record {
          application = a.id;
          automation = some m.id;
          template = some m.template;
          status = scheduled;
          sent_at = at;
        })
        s
    else s

abbrev pub invite : Pipeline → ℕ → Application → Option ℕ → State → State
invite p now a none s = s
invite p now a (some t) s =
    if contains t p.templates
    then add_log
        (record {
          application = a.id;
          automation = none;
          template = some t;
          status = sent;
          sent_at = now;
        })
        s
    else s

unfoldable pub send_assessment_invitation :
    Pipeline → ℕ → Application → AssessmentAutomation → State → State
send_assessment_invitation p now a x s = invite p now a x.email_template s

abbrev pub is_onboarding : ℕ → ℕ → Onboarding → Bool
is_onboarding application company o = o.application == application && o.company == company

abbrev is_template : ℕ → ℕ → OnboardingTemplate → Bool
is_template id company t = t.id == id && t.company == company

abbrev pub add_onboarding : Application → ℕ → Option ℕ → List Text → State → State
add_onboarding a company template documents s = record s {
  onboardings =
      record { application = a.id; company = company; template = template; documents = documents }
      ∷ s.onboardings;
}

abbrev pub from_template : Application → ℕ → Option OnboardingTemplate → State → Run
from_template a company none s = value_error
from_template a company (some t) s =
    done (add_onboarding a company (some t.id) t.required_documents s)

-- The template is looked up where one is given.
abbrev pub with_template : Pipeline → Application → ℕ → Option ℕ → State → Run
with_template p a company none s = done (add_onboarding a company none [] s)
with_template p a company (some id) s =
    from_template a company (find_first (is_template id company) p.onboarding_templates) s

unfoldable pub initiate_onboarding_process : Pipeline → Application → ℕ → Option ℕ → State → Run
initiate_onboarding_process p a company template s =
    if not (a.company == company)
    then value_error
    else if any (is_onboarding a.id company) s.onboardings
    then done s
    else if not p.has_in_progress
    then value_error
    else with_template p a company template s

module _ (p : Pipeline) (passes : Text → Bool) (now today : ℕ) (a : Application) (j : Job) where
  -- The mail of an automation that passes.
  unfoldable pub mail : MailAutomation → State → State
  mail m s =
      if m.is_immediate
      then send_automated_email p now a m s
      else schedule_automated_email p a m (or_now m.send_at now)
          (add_task (email_task m.id (or_now m.send_at now)) s)

  abbrev pub advanced : State → State
  advanced s = record s { current_stage = suc s.current_stage }

  -- `next` triggers the automations of a stage.
  unfoldable pub auto_move : (ℕ → State → Run) → MailAutomation → State → Run
  auto_move next m s =
      if m.auto_move && m.is_immediate
      then (if ltb s.current_stage j.stages
          then next (suc s.current_stage) (advanced s)
          else done s)
      else done s

  unfoldable pub mail_loop : (ℕ → State → Run) → List MailAutomation → State → Run
  mail_loop next [] s = done s
  mail_loop next (m ∷ ms) s =
      if passes m.criteria
      then then_done (auto_move next m (mail m s)) (mail_loop next ms)
      else mail_loop next ms s

  unfoldable pub assess : AssessmentAutomation → State → State
  assess x s =
      if x.is_immediate
      then send_assessment_invitation p now a x s
      else add_task (assessment_task x.id (or_now x.send_at now)) s

  unfoldable pub assessment_loop : List AssessmentAutomation → State → State
  assessment_loop [] s = s
  assessment_loop (x ∷ xs) s =
      if passes x.criteria then assessment_loop xs (assess x s) else assessment_loop xs s

  -- A mail of `send_interview_invite`, which goes to the candidate and to the interviewer.
  abbrev pub invitation : EmailLog
  invitation = record {
    application = a.id;
    automation = none;
    template = none;
    status = sent;
    sent_at = now;
  }

  -- The two mails are logged where the interview is new.
  abbrev pub interview : InterviewAutomation → State → State
  interview i s = record s {
    logs = if is_scheduled i.id a.id s.schedules then s.logs else invitation ∷ invitation ∷ s.logs;
    schedules = schedule_candidate_interview today i a.id true s.schedules;
  }

  unfoldable pub interview_loop : List InterviewRound → State → State
  interview_loop [] s = s
  interview_loop (i ∷ rest) s =
      if passes i.criteria
      then interview_loop rest (interview i.automation s)
      else interview_loop rest s

  unfoldable pub onboarding_loop : List OnboardingAutomation → State → Run
  onboarding_loop [] s = done s
  onboarding_loop (o ∷ os) s =
      then_done (initiate_onboarding_process p a j.company o.template s) (onboarding_loop os)

  -- The automations of the job at the stage.
  abbrev pub mails_at : ℕ → List MailAutomation
  mails_at stage = select (λ m. m.job == j.id && (m.stage_index == stage && m.is_enabled)) p.mails

  abbrev assessments_at : ℕ → List AssessmentAutomation
  assessments_at stage =
      select (λ m. m.job == j.id && (m.stage_index == stage && m.is_enabled)) p.assessments

  abbrev interviews_at : ℕ → List InterviewRound
  interviews_at stage =
      select (λ m. m.job == j.id && (m.stage_index == stage && m.is_enabled)) p.interviews

  abbrev onboardings_at : ℕ → List OnboardingAutomation
  onboardings_at stage =
      select (λ m. m.job == j.id && (m.stage_index == stage && m.is_enabled)) p.onboardings

  -- What follows the mails.
  unfoldable pub after_mails : ℕ → State → Run
  after_mails stage s =
      onboarding_loop (onboardings_at stage)
        (interview_loop (interviews_at stage) (assessment_loop (assessments_at stage) s))

  unfoldable pub trigger : ℕ → ℕ → State → Run
  trigger zero stage s = unfinished
  trigger (suc fuel) stage s =
      then_done (mail_loop (trigger fuel) (mails_at stage) s) (after_mails stage)

module _ {F : Type 0} (float : Text → Option F) (less : F → F → Bool) where
  -- The application with its job, where both are found with the candidate. A candidate moves at most
  -- once for each stage of the job.
  unfoldable pub trigger_automations :
      Pipeline → ℕ → ℕ → F → Option (Application × Job) → ℕ → State → Run
  trigger_automations p now today score none stage s = done s
  trigger_automations p now today score (some (a, j)) stage s =
      trigger p (evaluate_criteria float less score) now today a j (suc j.stages) stage s
