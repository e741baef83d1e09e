-- ===== src/Offboarding/Ticks.antt =====
-- Ticking the open required tasks of a checklist, on the list of its tasks.
use croar_backend_new.Prelude.{
  ℕ, ◌≡◌, refl, ap, ◌∙◌, Bool, true, false, ◌||◌, some, List, [], ◌∷◌, inl, inr, map, All,
  Bool-cases, arith, select, any, find_first, update_first, All-map,
}
use croar_backend_new.Offboarding.{OffboardingTask, is_task}
use croar_backend_new.Offboarding.Tasks.{tick, is_blocking}

pub any-find_first :
    (p : OffboardingTask → Bool) (ts : List OffboardingTask)
    → any p ts ≡ true
    → (t : OffboardingTask) × (find_first p ts ≡ some t)
any-find_first p [] h = absurd cc
any-find_first p (t ∷ ts) h = elim (Bool-cases (p t)) [
  | inl y ↦ (t, rw y refl)
  | inr n ↦ let k = any-find_first p ts (rw (← h) (rw n refl)) in (k.0, rw n k.1)
]

-- Ticking tasks by their ids, on the list of tasks.
abbrev pub tick_ids : List ℕ → List OffboardingTask → List OffboardingTask
tick_ids [] ts = ts
tick_ids (id ∷ ids) ts = tick_ids ids (update_first (is_task id) (tick true) ts)

-- The ids of the open required tasks.
abbrev pub pending : List OffboardingTask → List ℕ
pending ts = map (λ t. t.id) (select is_blocking ts)

abbrev pub AreDistinct : List OffboardingTask → Type 0
AreDistinct [] = Unit
AreDistinct (t ∷ ts) = (any (is_task t.id) ts ≡ false) × AreDistinct ts

abbrev pub Lists : List OffboardingTask → ℕ → Type 0
Lists ts id = any (is_task id) ts ≡ true

pub tick-listed :
    (i j : ℕ) (ts : List OffboardingTask)
    → any (is_task i) (update_first (is_task j) (tick true) ts) ≡ any (is_task i) ts
tick-listed i j [] = refl
tick-listed i j (t ∷ ts) = elim (Bool-cases (is_task j t)) [
  | inl y ↦ rw y refl
  | inr n ↦ rw (n, tick-listed i j ts) refl
]

-- Ticks pass over a task with none of the ids.
pass_over :
    (t : OffboardingTask) (ids : List ℕ) (ts : List OffboardingTask)
    → All (λ id. is_task id t ≡ false) ids
    → tick_ids ids (t ∷ ts) ≡ t ∷ tick_ids ids ts
pass_over t [] ts h = refl
pass_over t (id ∷ ids) ts (n, h) =
    rw n (pass_over t ids (update_first (is_task id) (tick true) ts) h)

pending_other :
    (t : OffboardingTask) (ts : List OffboardingTask)
    → any (is_task t.id) ts ≡ false
    → All (λ id. is_task id t ≡ false) (pending ts)
pending_other t [] h = tt
pending_other t (u ∷ ts) h =
    let ih = pending_other t ts (ground (arith, h)) in
    let apart : is_task u.id t ≡ false = ground (arith, h) in
    elim (Bool-cases (is_blocking u)) [ inl y ↦ rw y (apart, ih) | inr n ↦ rw n ih ]

ticks_first :
    (t : OffboardingTask) (ts : List OffboardingTask)
    → any (is_task t.id) ts ≡ false
    → is_blocking t ≡ true
    → tick_ids (pending (t ∷ ts)) (t ∷ ts) ≡ tick true t ∷ tick_ids (pending ts) ts
ticks_first t ts n y =
    let self : is_task t.id t ≡ true = ground arith in
    let first : pending (t ∷ ts) ≡ t.id ∷ pending ts = rw y refl in
    let ticked_first : update_first (is_task t.id) (tick true) (t ∷ ts) ≡ tick true t ∷ ts =
      rw self refl in
    ap (λ (ids : List ℕ). tick_ids ids (t ∷ ts)) first
    ∙ (ap (tick_ids (pending ts)) ticked_first
        ∙ pass_over (tick true t) (pending ts) ts (pending_other t ts n))

ticks_later :
    (t : OffboardingTask) (ts : List OffboardingTask)
    → any (is_task t.id) ts ≡ false
    → is_blocking t ≡ false
    → tick_ids (pending (t ∷ ts)) (t ∷ ts) ≡ t ∷ tick_ids (pending ts) ts
ticks_later t ts n m =
    let rest : pending (t ∷ ts) ≡ pending ts = rw m refl in
    ap (λ (ids : List ℕ). tick_ids ids (t ∷ ts)) rest
    ∙ pass_over t (pending ts) ts (pending_other t ts n)

pub none_left :
    (ts : List OffboardingTask)
    → AreDistinct ts
    → any is_blocking (tick_ids (pending ts) ts) ≡ false
none_left [] d = refl
none_left (t ∷ ts) (n, d) = elim (Bool-cases (is_blocking t)) [
  | inl y ↦
      let off : is_blocking (tick true t) ≡ false = ground arith in
      ap (any is_blocking) (ticks_first t ts n y) ∙ rw (off, none_left ts d) refl
  | inr m ↦ ap (any is_blocking) (ticks_later t ts n m) ∙ rw (m, none_left ts d) refl
]

pub pending-Lists : (ts : List OffboardingTask) → All (Lists ts) (pending ts)
pending-Lists [] = tt
pending-Lists (t ∷ ts) =
    let later : All (Lists (t ∷ ts)) (pending ts) =
      All-map (Lists ts) (Lists (t ∷ ts)) (λ id h. or_right (is_task id t) _ h) (pending ts)
        (pending-Lists ts) in
    elim (Bool-cases (is_blocking t)) [
      | inl y ↦ rw y (let self : is_task t.id t ≡ true = ground arith in rw self refl, later)
      | inr n ↦ rw n later
    ]
  where
    or_right : (a b : Bool) → b ≡ true → (a || b) ≡ true
    or_right a b h = ground arith
