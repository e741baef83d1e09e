-- ===== src/Automation/Rows.antt =====
-- What holds of the rows that triggers add.
use croar_backend_new.Prelude.{
  ℕ, ◌≡◌, refl, Bool, true, false, inl, inr, Option, none, some, List, [], ◌∷◌, All, Bool-cases,
  any, if◌then◌else◌,
}
use croar_backend_new.Text.{Text}
use croar_backend_new.Interview.{
  InterviewAutomation, InterviewSchedule, is_scheduled, schedule_candidate_interview,
}
use croar_backend_new.Automation.{
  Pipeline, Application, Job, State, EmailLog, Onboarding, done, is_known, invitation,
  is_onboarding, trigger_automations,
}
use croar_backend_new.Automation.Criteria.{evaluate_criteria}
use croar_backend_new.Automation.Steps.{
  Step, logged, queued, moved, interviewed, onboarded, Onboards, kept, added, trigger-Steps,
  Steps-keep, initiate_onboarding_process-Onboards, done-inj,
}

-- One onboarding for each application and company.
abbrev pub AreOnboardedOnce : List Onboarding → Type 0
AreOnboardedOnce [] = Unit
AreOnboardedOnce (o ∷ os) =
    (any (is_onboarding o.application o.company) os ≡ false) × AreOnboardedOnce os

-- One interview for each automation and application.
abbrev pub AreScheduledOnce : List InterviewSchedule → Type 0
AreScheduledOnce [] = Unit
AreScheduledOnce (r ∷ rs) =
    (is_scheduled r.automation_id r.application_id rs ≡ false) × AreScheduledOnce rs

-- A log that names a template names one that there is.
abbrev pub AreKnown : Pipeline → List EmailLog → Type 0
AreKnown p = All (λ l. is_known p.templates l.template ≡ true)

abbrev pub IsSound : Pipeline → State → Type 0
IsSound p s = AreKnown p s.logs × AreOnboardedOnce s.onboardings × AreScheduledOnce s.schedules

schedule_once :
    (today : ℕ) (i : InterviewAutomation) (application : ℕ) (known : Bool)
    (rs : List InterviewSchedule)
    → AreScheduledOnce rs
    → AreScheduledOnce (schedule_candidate_interview today i application known rs)
unfolding schedule_candidate_interview
schedule_once today i application known rs h =
    elim (Bool-cases (is_scheduled i.id application rs)) [
      | inl y ↦ rw y h
      | inr n ↦ elim (Bool-cases known) [ inl y ↦ rw (n, y) (n, h) | inr m ↦ rw (n, m) h ]
    ]

Onboards-IsSound :
    (p : Pipeline) (a : Application) (company : ℕ) (s t : State)
    → Onboards a company s t
    → IsSound p s
    → IsSound p t
Onboards-IsSound p a company s t kept h = h
Onboards-IsSound p a company s t (added _ _ n) h = (h.0, (n, h.1), h.2)

module _ (p : Pipeline) (passes : Text → Bool) (now today : ℕ) (a : Application) (j : Job) where
  -- The mails of an interview name no template.
  invited :
      (b : Bool) (logs : List EmailLog)
      → AreKnown p logs
      → AreKnown p (
          if b
          then logs
          else invitation p passes now today a j ∷ invitation p passes now today a j ∷ logs)
  invited true logs h = h
  invited false logs h = (refl, (refl, h))

  step-IsSound : (s t : State) → Step p passes now today a j true s t → IsSound p s → IsSound p t
  step-IsSound s t (logged l y) h = ((y, h.0), h.1, h.2)
  step-IsSound s t (queued x) h = h
  step-IsSound s t (moved w y) h = h
  step-IsSound s t (interviewed i) h = (
    invited (is_scheduled i.id a.id s.schedules) s.logs h.0,
    h.1,
    schedule_once today i a.id true s.schedules h.2,
  )
  step-IsSound s t (onboarded template _ e) h =
      Onboards-IsSound p a j.company s t
        (initiate_onboarding_process-Onboards p a j.company s t template e) h

-- However far a trigger moves the candidate, the rows that it adds keep to one onboarding for each
-- application and company and one interview for each automation and application, and a log that it
-- adds names a template that there is or, as the mails of an interview do, none.
pub trigger_automations-IsSound :
    {F : Type 0} (float : Text → Option F) (less : F → F → Bool) (p : Pipeline) (now today : ℕ)
    (score : F) (found : Option (Application × Job)) (stage : ℕ) (s t : State)
    → trigger_automations float less p now today score found stage s ≡ done t
    → IsSound p s
    → IsSound p t
unfolding trigger_automations
trigger_automations-IsSound float less p now today score none stage s t e h =
    rw (← done-inj s t e) h
trigger_automations-IsSound float less p now today score (some (a, j)) stage s t e h =
    let passes = evaluate_criteria float less score in
    Steps-keep p passes now today a j true (IsSound p) (step-IsSound p passes now today a j) s t
      (trigger-Steps p passes now today a j true refl _ stage s t e) h
