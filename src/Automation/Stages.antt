-- ===== src/Automation/Stages.antt =====
-- How far a trigger moves the candidate, and that it ends.
use croar_backend_new.Prelude.{ℕ, ◌≤◌, ◌≡◌, refl, Bool, true, false, ◌⊎◌, inl, inr, arith, any}
use croar_backend_new.Text.{Text}
use croar_backend_new.Automation.{
  Pipeline, Application, Job, State, Run, done, value_error, unfinished, trigger, mails_at,
}
use croar_backend_new.Automation.Steps.{
  Step, logged, queued, moved, interviewed, onboarded, trigger-Steps, Onboards, kept, added,
  initiate_onboarding_process-Onboards, trigger_quiet, Steps-keep, is_mover,
}

abbrev pub is_finished : Run → Bool
is_finished (done s) = true
is_finished value_error = true
is_finished unfinished = false

-- Onboarding leaves the stage as it is.
Onboards-stage :
    (a : Application) (company : ℕ) (s t : State)
    → Onboards a company s t
    → t.current_stage ≡ s.current_stage
Onboards-stage a company s t kept = refl
Onboards-stage a company s t (added _ _ _) = refl

module _ (p : Pipeline) (passes : Text → Bool) (now today : ℕ) (a : Application) (j : Job) where
  -- Forward, and not beyond the last stage.
  abbrev pub Advances : State → State → Type 0
  Advances s t =
      (s.current_stage ≤ t.current_stage)
      × ((t.current_stage ≤ j.stages) ⊎ (t.current_stage ≡ s.current_stage))

  pub step-Advances :
      (s t u : State) → Step p passes now today a j true t u → Advances s t → Advances s u
  step-Advances s t u (logged l y) h = h
  step-Advances s t u (queued x) h = h
  step-Advances s t u (moved w y) h = (ground (arith, h), inl (ground arith))
  step-Advances s t u (interviewed i) h = h
  step-Advances s t u (onboarded template _ e) h =
      rw
        (Onboards-stage a j.company t u
          (initiate_onboarding_process-Onboards p a j.company t u template e))
        h

  step_quiet :
      (s t u : State)
      → Step p passes now today a j false t u
      → t.current_stage ≡ s.current_stage
      → u.current_stage ≡ s.current_stage
  step_quiet s t u (logged l y) h = h
  step_quiet s t u (queued x) h = h
  step_quiet s t u (moved w y) h = absurd cc
  step_quiet s t u (interviewed i) h = h
  step_quiet s t u (onboarded template _ e) h =
      rw
        (Onboards-stage a j.company t u
          (initiate_onboarding_process-Onboards p a j.company t u template e))
        h

  -- Where a trigger of a stage ends, the candidate is at the same stage or at a later one, which is not
  -- beyond the last stage of the job, and at the same one if no mail of the stage moves it on.
  pub trigger-Advances :
      (fuel stage : ℕ) (s t : State)
      → trigger p passes now today a j fuel stage s ≡ done t
      → Advances s t
        × (any (is_mover passes) (mails_at p passes now today a j stage) ≡ false
            → t.current_stage ≡ s.current_stage)
  trigger-Advances fuel stage s t h = (
    Steps-keep p passes now today a j true (Advances s) (step-Advances s) s t
        (trigger-Steps p passes now today a j true refl fuel stage s t h) (ground arith, inr refl),
    λ q.
        Steps-keep p passes now today a j false (λ u. u.current_stage ≡ s.current_stage)
          (step_quiet s) s t (trigger_quiet p passes now today a j false fuel stage s t q h) refl,
  )
