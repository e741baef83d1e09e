-- ===== src/Automation/Steps.antt =====
-- The changes that a trigger is made of: every call of `trigger_automations` that ends is a sequence
-- of them.
use croar_backend_new.Prelude.{
  ℕ, zero, suc, ◌≡◌, refl, Bool, true, false, ◌&&◌, inl, inr, Option, none, some, List, [], ◌∷◌,
  Bool-cases, ltb, arith, if◌then◌else◌, contains, any, ◌==◌,
}
use croar_backend_new.Text.{Text}
use croar_backend_new.Interview.{InterviewAutomation}
use croar_backend_new.Automation.{
  Pipeline, Application, Job, State, Run, done, value_error, unfinished, then_done, EmailLog, Task,
  MailAutomation, AssessmentAutomation, InterviewRound, OnboardingAutomation, add_log, add_task,
  send_automated_email, schedule_automated_email, send_assessment_invitation,
  initiate_onboarding_process, is_onboarding, add_onboarding, from_template, with_template,
  OnboardingTemplate, invite, is_known, mail, auto_move, mail_loop, assess, assessment_loop,
  interview, interview_loop, onboarding_loop, after_mails, trigger, mails_at,
}

pub then_done_ok :
    (r : Run) (k : State → Run) (t : State)
    → then_done r k ≡ done t
    → (s : State) × (r ≡ done s) × (k s ≡ done t)
then_done_ok (done s) k t h = (s, refl, h)
then_done_ok value_error k t h = cc
then_done_ok unfinished k t h = cc

pub done-inj : (s t : State) → done s ≡ done t → s ≡ t
done-inj s t h = cc

-- What an onboarding process that ends has done.
pub data Onboards (a : Application) (company : ℕ) (s : State) : State → Type 0 where
  kept : Onboards a company s s
  added :
      (template : Option ℕ) (documents : List Text)
      → any (is_onboarding a.id company) s.onboardings ≡ false
      → Onboards a company s (add_onboarding a company template documents s)

module _ (p : Pipeline) (a : Application) (company : ℕ) (s t : State) where
  from_template-Onboards :
      (o : Option OnboardingTemplate)
      → any (is_onboarding a.id company) s.onboardings ≡ false
      → from_template a company o s ≡ done t
      → Onboards a company s t
  from_template-Onboards none n h = cc
  from_template-Onboards (some x) n h = rw (← done-inj _ t h) (added _ _ n)

  with_template-Onboards :
      (template : Option ℕ)
      → any (is_onboarding a.id company) s.onboardings ≡ false
      → with_template p a company template s ≡ done t
      → Onboards a company s t
  with_template-Onboards none n h = rw (← done-inj _ t h) (added none [] n)
  with_template-Onboards (some id) n h = from_template-Onboards _ n h

  pub initiate_onboarding_process-Onboards :
      (template : Option ℕ)
      → initiate_onboarding_process p a company template s ≡ done t
      → Onboards a company s t
  unfolding initiate_onboarding_process
  initiate_onboarding_process-Onboards template h = elim (Bool-cases (a.company == company)) [
    | inr n ↦ let e : value_error ≡ done t = rw (← h) (rw n refl) in absurd cc
    | inl y ↦ elim (Bool-cases (any (is_onboarding a.id company) s.onboardings)) [
      | inl z ↦ rw (← done-inj s t (rw (← h) (rw (y, z) refl))) kept
      | inr n ↦ elim (Bool-cases p.has_in_progress) [
        | inl w ↦ with_template-Onboards template n (rw (← h) (rw (y, n, w) refl))
        | inr m ↦ let e : value_error ≡ done t = rw (← h) (rw (y, n, m) refl) in absurd cc
      ]
    ]
  ]

-- A mail that moves the candidate on.
abbrev pub is_mover : (Text → Bool) → MailAutomation → Bool
is_mover passes m = passes m.criteria && (m.auto_move && m.is_immediate)

-- `moves` says whether the stage may change.
module _ (p : Pipeline) (passes : Text → Bool) (now today : ℕ) (a : Application) (j : Job)
    (moves : Bool) where
  pub data Step (s : State) : State → Type 0 where
    logged : (l : EmailLog) → is_known p.templates l.template ≡ true → Step s (add_log l s)
    queued : (t : Task) → Step s (add_task t s)
    moved :
        moves ≡ true
        → ltb s.current_stage j.stages ≡ true
        → Step s (record s { current_stage = suc s.current_stage })
    interviewed : (i : InterviewAutomation) → Step s (interview p passes now today a j i s)
    onboarded :
        (template : Option ℕ) (t : State)
        → initiate_onboarding_process p a j.company template s ≡ done t
        → Step s t

  pub data Steps : State → State → Type 0 where
    stop : (s : State) → Steps s s
    step : (s t u : State) → Step s t → Steps t u → Steps s u

  one : (s t : State) → Step s t → Steps s t
  one s t x = step s t t x (stop t)

  append : (s t u : State) → Steps s t → Steps t u → Steps s u
  append s t u (stop _) ys = ys
  append s t u (step _ r _ x xs) ys = step s r u x (append r t u xs ys)

  choose :
      (b : Bool) (s x y : State) → (b ≡ true → Steps s x) → Steps s y → Steps s (if b then x else y)
  choose true s x y f g = f refl
  choose false s x y f g = g

  send_automated_email-Steps :
      (m : MailAutomation) (s : State) → Steps s (send_automated_email p now a m s)
  unfolding send_automated_email
  send_automated_email-Steps m s =
      choose (contains m.template p.templates) s _ s (λ y. one s _ (logged _ y)) (stop s)

  schedule_automated_email-Steps :
      (m : MailAutomation) (at : ℕ) (s : State) → Steps s (schedule_automated_email p a m at s)
  unfolding schedule_automated_email
  schedule_automated_email-Steps m at s =
      choose (contains m.template p.templates) s _ s (λ y. one s _ (logged _ y)) (stop s)

  pub mail-Steps : (m : MailAutomation) (s : State) → Steps s (mail p passes now today a j m s)
  unfolding mail
  mail-Steps m s =
      choose m.is_immediate s _ _ (λ y. send_automated_email-Steps m s)
        (step s _ _ (queued _) (schedule_automated_email-Steps m _ _))

  -- What calls of `next` that end are.
  abbrev pub AreSteps : (ℕ → State → Run) → Type 0
  AreSteps next = (stage : ℕ) (s t : State) → next stage s ≡ done t → Steps s t

  pub auto_move-Steps :
      moves ≡ true
      → (next : ℕ → State → Run) → AreSteps next
      → (m : MailAutomation) (s t : State) → auto_move p passes now today a j next m s ≡ done t
      → Steps s t
  unfolding auto_move
  auto_move-Steps w next k m s t h = elim (Bool-cases (m.auto_move && m.is_immediate)) [
    | inl y ↦ elim (Bool-cases (ltb s.current_stage j.stages)) [
      | inl z ↦ step s _ t (moved w z) (k (suc s.current_stage) _ t (rw (← h) (rw (y, z) refl)))
      | inr n ↦ rw (← done-inj s t (rw (← h) (rw (y, n) refl))) (stop s)
    ]
    | inr n ↦ rw (← done-inj s t (rw (← h) (rw n refl))) (stop s)
  ]

  mail_loop-Steps :
      moves ≡ true
      → (next : ℕ → State → Run) → AreSteps next
      → (ms : List MailAutomation) (s t : State)
      → mail_loop p passes now today a j next ms s ≡ done t
      → Steps s t
  unfolding mail_loop
  mail_loop-Steps w next k [] s t h = rw (← done-inj s t h) (stop s)
  mail_loop-Steps w next k (m ∷ ms) s t h = elim (Bool-cases (passes m.criteria)) [
    | inl y ↦
        let r =
          then_done_ok (auto_move p passes now today a j next m (mail p passes now today a j m s))
            (mail_loop p passes now today a j next ms) t (rw (← h) (rw y refl)) in
        append s _ t (mail-Steps m s) (
          append _ r.0 t (auto_move-Steps w next k m _ r.0 r.1)
            (mail_loop-Steps w next k ms r.0 t r.2))
    | inr n ↦ mail_loop-Steps w next k ms s t (rw (← h) (rw n refl))
  ]

  assess-Steps :
      (x : AssessmentAutomation) (s : State) → Steps s (assess p passes now today a j x s)
  unfolding assess send_assessment_invitation
  assess-Steps x s =
      choose x.is_immediate s _ _ (λ y. invited x.email_template) (one s _ (queued _))
    where
      invited : (o : Option ℕ) → Steps s (invite p now a o s)
      invited none = stop s
      invited (some t) = choose (contains t p.templates) s _ s (λ y. one s _ (logged _ y)) (stop s)

  assessment_loop-Steps :
      (xs : List AssessmentAutomation) (s : State)
      → Steps s (assessment_loop p passes now today a j xs s)
  unfolding assessment_loop
  assessment_loop-Steps [] s = stop s
  assessment_loop-Steps (x ∷ xs) s =
      choose (passes x.criteria) s _ _
        (λ y. append s _ _ (assess-Steps x s) (assessment_loop-Steps xs _))
        (assessment_loop-Steps xs s)

  interview_loop-Steps :
      (is : List InterviewRound) (s : State) → Steps s (interview_loop p passes now today a j is s)
  unfolding interview_loop
  interview_loop-Steps [] s = stop s
  interview_loop-Steps (i ∷ rest) s =
      choose (passes i.criteria) s _ _
        (λ y. step s _ _ (interviewed i.automation) (interview_loop-Steps rest _))
        (interview_loop-Steps rest s)

  onboarding_loop-Steps :
      (os : List OnboardingAutomation) (s t : State)
      → onboarding_loop p passes now today a j os s ≡ done t
      → Steps s t
  unfolding onboarding_loop
  onboarding_loop-Steps [] s t h = rw (← done-inj s t h) (stop s)
  onboarding_loop-Steps (o ∷ os) s t h =
      let r =
        then_done_ok (initiate_onboarding_process p a j.company o.template s)
          (onboarding_loop p passes now today a j os) t h in
      step s r.0 t (onboarded o.template r.0 r.1) (onboarding_loop-Steps os r.0 t r.2)

  after_mails-Steps :
      (stage : ℕ) (s t : State) → after_mails p passes now today a j stage s ≡ done t → Steps s t
  unfolding after_mails
  after_mails-Steps stage s t h =
      append s _ t (assessment_loop-Steps _ s)
        (append _ _ t (interview_loop-Steps _ _) (onboarding_loop-Steps _ _ t h))

  pub trigger-Steps : moves ≡ true → (fuel : ℕ) → AreSteps (trigger p passes now today a j fuel)
  unfolding trigger
  trigger-Steps w zero stage s t h = cc
  trigger-Steps w (suc fuel) stage s t h =
      let next = trigger p passes now today a j fuel in
      let r =
        then_done_ok
          (mail_loop p passes now today a j next (mails_at p passes now today a j stage) s)
          (after_mails p passes now today a j stage) t h in
      append s r.0 t (mail_loop-Steps w next (trigger-Steps w fuel) _ s r.0 r.1)
        (after_mails-Steps stage r.0 t r.2)

  mail_loop_quiet :
      (next : ℕ → State → Run) (ms : List MailAutomation) (s t : State)
      → any (is_mover passes) ms ≡ false
      → mail_loop p passes now today a j next ms s ≡ done t
      → Steps s t
  unfolding mail_loop auto_move
  mail_loop_quiet next [] s t q h = rw (← done-inj s t h) (stop s)
  mail_loop_quiet next (m ∷ ms) s t q h = elim (Bool-cases (passes m.criteria)) [
    | inl y ↦
        let still : (m.auto_move && m.is_immediate) ≡ false = ground (arith, q, y) in
        append s _ t (mail-Steps m s)
          (mail_loop_quiet next ms _ t (ground (arith, q, y)) (rw (← h) (rw (y, still) refl)))
    | inr n ↦ mail_loop_quiet next ms s t (ground (arith, q, n)) (rw (← h) (rw n refl))
  ]

  -- Without such a mail at the stage, no step moves.
  pub trigger_quiet :
      (fuel stage : ℕ) (s t : State)
      → any (is_mover passes) (mails_at p passes now today a j stage) ≡ false
      → trigger p passes now today a j fuel stage s ≡ done t
      → Steps s t
  unfolding trigger
  trigger_quiet zero stage s t q h = cc
  trigger_quiet (suc fuel) stage s t q h =
      let next = trigger p passes now today a j fuel in
      let r =
        then_done_ok
          (mail_loop p passes now today a j next (mails_at p passes now today a j stage) s)
          (after_mails p passes now today a j stage) t h in
      append s r.0 t (mail_loop_quiet next _ s r.0 q r.1) (after_mails-Steps stage r.0 t r.2)

  pub Steps-keep {κ} :
      (P : State → Type κ)
      → ((s t : State) → Step s t → P s → P t)
      → (s t : State) → Steps s t
      → P s
      → P t
  Steps-keep P k s t (stop _) h = h
  Steps-keep P k s t (step _ r _ x xs) h = Steps-keep P k r t xs (k s r x h)
