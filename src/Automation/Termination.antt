-- ===== src/Automation/Termination.antt =====
-- The recursion of a trigger: a move leads to the next stage, and there are no moves beyond the last.
use croar_backend_new.Prelude.{
  ℕ, zero, suc, ◌+◌, ◌<◌, ◌≡◌, refl, ◌∙◌, Bool, true, ◌&&◌, inl, inr, Option, none, some, List, [],
  ◌∷◌, Bool-cases, ltb, arith, any, ◌==◌,
}
use croar_backend_new.Text.{Text}
use croar_backend_new.Automation.{
  Pipeline, Application, Job, State, Run, done, value_error, unfinished, then_done, MailAutomation,
  OnboardingAutomation, OnboardingTemplate, mail, auto_move, mail_loop, onboarding_loop,
  after_mails, trigger, initiate_onboarding_process, is_onboarding, from_template, with_template,
  trigger_automations,
}
use croar_backend_new.Automation.Criteria.{evaluate_criteria}
use croar_backend_new.Automation.Steps.{
  trigger-Steps, mail-Steps, auto_move-Steps, Steps-keep, AreSteps,
}
use croar_backend_new.Automation.Stages.{is_finished, Advances, step-Advances}

then_done_finished :
    (r : Run) (k : State → Run)
    → is_finished r ≡ true
    → ((s : State) → r ≡ done s → is_finished (k s) ≡ true)
    → is_finished (then_done r k) ≡ true
then_done_finished (done s) k h f = f s refl
then_done_finished value_error k h f = refl
then_done_finished unfinished k h f = cc

then_done_more :
    (r r' : Run) (k k' : State → Run)
    → is_finished (then_done r k) ≡ true
    → (is_finished r ≡ true → r' ≡ r)
    → ((s : State) → is_finished (k s) ≡ true → k' s ≡ k s)
    → then_done r' k' ≡ then_done r k
then_done_more (done s) r' k k' h e f = rw (e refl) (f s h)
then_done_more value_error r' k k' h e f = rw (e refl) refl
then_done_more unfinished r' k k' h e f = absurd cc

from_template_finished :
    (a : Application) (company : ℕ) (o : Option OnboardingTemplate) (s : State)
    → is_finished (from_template a company o s) ≡ true
from_template_finished a company none s = refl
from_template_finished a company (some t) s = refl

with_template_finished :
    (p : Pipeline) (a : Application) (company : ℕ) (o : Option ℕ) (s : State)
    → is_finished (with_template p a company o s) ≡ true
with_template_finished p a company none s = refl
with_template_finished p a company (some t) s = from_template_finished a company _ s

initiate_finished :
    (p : Pipeline) (a : Application) (company : ℕ) (o : Option ℕ) (s : State)
    → is_finished (initiate_onboarding_process p a company o s) ≡ true
unfolding initiate_onboarding_process
initiate_finished p a company o s = elim (Bool-cases (a.company == company)) [
  | inr n ↦ rw n refl
  | inl y ↦ elim (Bool-cases (any (is_onboarding a.id company) s.onboardings)) [
    | inl z ↦ rw (y, z) refl
    | inr n ↦ elim (Bool-cases p.has_in_progress) [
      | inl w ↦ rw (y, n, w) (with_template_finished p a company o s)
      | inr m ↦ rw (y, n, m) refl
    ]
  ]
]

module _ (p : Pipeline) (passes : Text → Bool) (now today : ℕ) (a : Application) (j : Job) where
  onboarding_loop_finished :
      (os : List OnboardingAutomation) (s : State)
      → is_finished (onboarding_loop p passes now today a j os s) ≡ true
  unfolding onboarding_loop
  onboarding_loop_finished [] s = refl
  onboarding_loop_finished (o ∷ os) s =
      then_done_finished _ _ (initiate_finished p a j.company o.template s)
        (λ t e. onboarding_loop_finished os t)

  -- What fuel is enough for the calls of `next`.
  abbrev pub Enough : ℕ → State → Type 0
  Enough fuel s = (0 < fuel) × (j.stages < fuel + s.current_stage)

  abbrev Ends : ℕ → (ℕ → State → Run) → Type 0
  Ends fuel next = (stage : ℕ) (s : State) → Enough fuel s → is_finished (next stage s) ≡ true

  auto_move_finished :
      (fuel : ℕ) (next : ℕ → State → Run)
      → Ends fuel next
      → (m : MailAutomation) (s : State) → Enough (suc fuel) s
      → is_finished (auto_move p passes now today a j next m s) ≡ true
  unfolding auto_move
  auto_move_finished fuel next k m s h = elim (Bool-cases (m.auto_move && m.is_immediate)) [
    | inr n ↦ rw n refl
    | inl y ↦ elim (Bool-cases (ltb s.current_stage j.stages)) [
      | inr n ↦ rw (y, n) refl
      | inl z ↦
          rw (y, z) (k (suc s.current_stage) _ (ground (arith, z, h), let q = h.1 in omega arith))
    ]
  ]

  mail_loop_finished :
      (fuel : ℕ) (next : ℕ → State → Run)
      → Ends fuel next
      → AreSteps p passes now today a j true next
      → (ms : List MailAutomation) (s : State) → Enough (suc fuel) s
      → is_finished (mail_loop p passes now today a j next ms s) ≡ true
  unfolding mail_loop
  mail_loop_finished fuel next k w [] s h = refl
  mail_loop_finished fuel next k w (m ∷ ms) s h = elim (Bool-cases (passes m.criteria)) [
    | inr n ↦ rw n (mail_loop_finished fuel next k w ms s h)
    | inl y ↦
        let sent = mail p passes now today a j m s in
        let adv : (u v : State)
            → _
            → Advances p passes now today a j s u
            → Advances p passes now today a j s v =
          Steps-keep p passes now today a j true (Advances p passes now today a j s)
            (step-Advances p passes now today a j s) in
        let here =
          adv s sent (mail-Steps p passes now today a j true m s) (ground arith, inr refl) in
        rw y (
          then_done_finished _ _
            (auto_move_finished fuel next k m sent
              (ground arith, let q = here.0 in let g = h.1 in omega arith))
            (λ t e. mail_loop_finished fuel next k w ms t (
              let q =
                (adv sent t (auto_move-Steps p passes now today a j true refl next w m sent t e)
                  here).0 in
              let g = h.1 in (ground arith, omega arith))))
  ]

  trigger-Ends : (fuel : ℕ) → Ends fuel (trigger p passes now today a j fuel)
  unfolding trigger after_mails
  trigger-Ends zero stage s h = absurd (let q = h.0 in omega arith)
  trigger-Ends (suc fuel) stage s h =
      then_done_finished _ _
        (mail_loop_finished fuel _ (trigger-Ends fuel)
          (trigger-Steps p passes now today a j true refl fuel) _ s h)
        (λ t e. onboarding_loop_finished _ _)

  -- More fuel gives what less fuel gave.
  abbrev Extends : (ℕ → State → Run) → (ℕ → State → Run) → Type 0
  Extends next next' =
      (stage : ℕ) (s : State) → is_finished (next stage s) ≡ true → next' stage s ≡ next stage s

  auto_move_more :
      (next next' : ℕ → State → Run)
      → Extends next next'
      → (m : MailAutomation) (s : State)
      → is_finished (auto_move p passes now today a j next m s) ≡ true
      → auto_move p passes now today a j next' m s ≡ auto_move p passes now today a j next m s
  unfolding auto_move
  auto_move_more next next' k m s h = elim (Bool-cases (m.auto_move && m.is_immediate)) [
    | inr n ↦ rw n refl
    | inl y ↦ elim (Bool-cases (ltb s.current_stage j.stages)) [
      | inr n ↦ rw (y, n) refl
      | inl z ↦ rw (y, z) (k (suc s.current_stage) _ (rw (← h) (rw (y, z) refl)))
    ]
  ]

  mail_loop_more :
      (next next' : ℕ → State → Run)
      → Extends next next'
      → (ms : List MailAutomation) (s : State)
      → is_finished (mail_loop p passes now today a j next ms s) ≡ true
      → mail_loop p passes now today a j next' ms s ≡ mail_loop p passes now today a j next ms s
  unfolding mail_loop
  mail_loop_more next next' k [] s h = refl
  mail_loop_more next next' k (m ∷ ms) s h = elim (Bool-cases (passes m.criteria)) [
    | inr n ↦ rw n (mail_loop_more next next' k ms s (rw (← h) (rw n refl)))
    | inl y ↦ rw y (
        then_done_more _ _ _ _ (rw (← h) (rw y refl)) (auto_move_more next next' k m _)
          (mail_loop_more next next' k ms))
  ]

  trigger_more :
      (fuel : ℕ)
      → Extends (trigger p passes now today a j fuel) (trigger p passes now today a j (suc fuel))
  unfolding trigger
  trigger_more zero stage s h = absurd cc
  trigger_more (suc fuel) stage s h =
      then_done_more _ _ _ _ h (mail_loop_more _ _ (trigger_more fuel) _ s) (λ t e. refl)

  trigger_steady :
      (fuel k stage : ℕ) (s : State)
      → Enough fuel s
      → trigger p passes now today a j (k + fuel) stage s
        ≡ trigger p passes now today a j fuel stage s
  trigger_steady fuel zero stage s h = let e : 0 + fuel ≡ fuel = omega arith in rw e refl
  trigger_steady fuel (suc k) stage s h =
      let more : Enough (k + fuel) s = (let q = h.0 in omega arith, let q = h.1 in omega arith) in
      let e : suc k + fuel ≡ suc (k + fuel) = omega arith in
      rw e (
        trigger_more (k + fuel) stage s (trigger-Ends (k + fuel) stage s more)
        ∙ trigger_steady fuel k stage s h)

-- Triggering the automations of a stage ends, with a state or a ValueError, whatever the pipeline, the
-- stage and the state are: a further allowance of nested calls makes no difference.
pub trigger_automations_finished :
    {F : Type 0} (float : Text → Option F) (less : F → F → Bool) (p : Pipeline) (now today : ℕ)
    (score : F) (a : Application) (j : Job) (stage : ℕ) (s : State) (k : ℕ)
    → (is_finished (trigger_automations float less p now today score (some (a, j)) stage s) ≡ true)
      × (trigger p (evaluate_criteria float less score) now today a j (k + suc j.stages) stage s
          ≡ trigger_automations float less p now today score (some (a, j)) stage s)
unfolding trigger_automations
trigger_automations_finished float less p now today score a j stage s k =
    let passes = evaluate_criteria float less score in
    let enough : Enough p passes now today a j (suc j.stages) s = (omega arith, omega arith) in
    (
      trigger-Ends p passes now today a j (suc j.stages) stage s enough,
      trigger_steady p passes now today a j (suc j.stages) k stage s enough,
    )
