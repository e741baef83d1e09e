-- ===== src/Automation/Criteria.antt =====
-- app/services/enterprise/automation_service.py: the criteria that gate an automation. Python's
-- `float`, on a text and on the order of its numbers, is a parameter.
use croar_backend_new.Prelude.{
  ℕ, ◌≡◌, refl, Bool, true, false, ◌&&◌, ◌||◌, ◌⊎◌, inl, inr, Option, none, some, [], ◌∷◌, ◌==◌,
  if◌then◌else◌, contains, Bool-cases,
}
use croar_backend_new.Text.{Text, codes, strip, lower, text_eq}

abbrev starts : Text → Text → Bool
starts [] t = true
starts (c ∷ p) [] = false
starts (c ∷ p) (d ∷ t) = c == d && starts p t

-- `p in t`
abbrev pub has_text : Text → Text → Bool
has_text p [] = text_eq p []
has_text p (d ∷ t) = starts p (d ∷ t) || has_text p t

-- The text up to the next separator, and from the first separator on.
abbrev until : ℕ → Text → Text
until sep [] = []
until sep (c ∷ t) = let rest = until sep t in if c == sep then [] else c ∷ rest

abbrev after : ℕ → Text → Text
after sep [] = []
after sep (c ∷ t) = let rest = after sep t in if c == sep then t else rest

-- `criteria.split(sep)[1].strip()`, where the separator is in the text.
abbrev pub operand : ℕ → Text → Text
operand sep criteria = strip (until sep (after sep criteria))

abbrev pub ai_score_name : Text
ai_score_name = codes "ai_score"

abbrev pub is_numeric : Text → Bool
is_numeric criteria = has_text ai_score_name (lower criteria)

module _ {F : Type 0} (float : Text → Option F) (less : F → F → Bool) where
  -- An exception of `float` closes the gate.
  abbrev pub above : F → Option F → Bool
  above score none = false
  above score (some bound) = less bound score

  abbrev pub below : F → Option F → Bool
  below score none = false
  below score (some bound) = less score bound

  unfoldable pub evaluate_criteria : F → Text → Bool
  evaluate_criteria score criteria =
      if text_eq (strip criteria) []
      then true
      else if is_numeric criteria
      then (if contains b'>' criteria
          then above score (float (operand b'>' criteria))
          else if contains b'<' criteria
          then below score (float (operand b'<' criteria))
          else false)
      else true

  -- What a numeric gate lets through: the text after the operator is a number on the right side of
  -- the score.
  abbrev pub Admits : F → Text → Type 0
  Admits score criteria =
      ((v : F) × (float (operand b'>' criteria) ≡ some v) × (less v score ≡ true))
      ⊎ ((v : F) × (float (operand b'<' criteria) ≡ some v) × (less score v ≡ true))

  above-some :
      (score : F) (o : Option F)
      → above score o ≡ true
      → (v : F) × (o ≡ some v) × (less v score ≡ true)
  above-some score none h = cc
  above-some score (some v) h = (v, refl, h)

  below-some :
      (score : F) (o : Option F)
      → below score o ≡ true
      → (v : F) × (o ≡ some v) × (less score v ≡ true)
  below-some score none h = cc
  below-some score (some v) h = (v, refl, h)

  -- A criterion that is not blank and names the score passes only where a number follows its operator
  -- and the score is above it, after `>`, or below it, after `<`.
  pub evaluate_criteria-Admits :
      (score : F) (criteria : Text)
      → text_eq (strip criteria) [] ≡ false
      → is_numeric criteria ≡ true
      → evaluate_criteria score criteria ≡ true
      → Admits score criteria
  unfolding evaluate_criteria
  evaluate_criteria-Admits score criteria b n h = elim (Bool-cases (contains b'>' criteria)) [
    | inl y ↦ inl (above-some score _ (rw (← h) (rw (b, n, y) refl)))
    | inr m ↦ elim (Bool-cases (contains b'<' criteria)) [
      | inl y ↦ inr (below-some score _ (rw (← h) (rw (b, n, m, y) refl)))
      | inr k ↦ let e : false ≡ true = rw (← h) (rw (b, n, m, k) refl) in absurd cc
    ]
  ]

  -- A criterion that does not name the score passes whatever it says.
  pub evaluate_criteria_other :
      (score : F) (criteria : Text)
      → is_numeric criteria ≡ false
      → evaluate_criteria score criteria ≡ true
  unfolding evaluate_criteria
  evaluate_criteria_other score criteria n = elim (Bool-cases (text_eq (strip criteria) [])) [
    | inl y ↦ rw y refl
    | inr m ↦ rw (m, n) refl
  ]
