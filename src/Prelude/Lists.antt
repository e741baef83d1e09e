-- ===== src/Prelude/Lists.antt =====
-- Lists measured by native numbers, and predicates on lists.
use Prim.Native.Nat.{ℕ, suc}
use mathlib.Core.Path.{◌≡◌, refl}
use mathlib.Core.Bool.{Bool, true, false, ◌||◌}
use croar_backend_new.Prelude.Tests.{if◌then◌else◌, ◌==◌, Bool-cases}
use mathlib.Core.Logic.{inl, inr}
use mathlib.Core.List.{List, [], ◌∷◌, ◌++◌}
use mathlib.Core.Option.{Option, none, some}

module _ {ℓ} {A : Type ℓ} where
  abbrev pub length : List A → ℕ
  length [] = 0
  length (x ∷ xs) = suc (length xs)

  -- The first element that passes the test.
  abbrev pub find_first : (A → Bool) → List A → Option A
  find_first p [] = none
  find_first p (x ∷ xs) = let rest = find_first p xs in if p x then some x else rest

  -- The elements that pass the test.
  abbrev pub select : (A → Bool) → List A → List A
  select p [] = []
  select p (x ∷ xs) = let rest = select p xs in if p x then x ∷ rest else rest

  -- Replaces the elements that pass the test by what the function makes of them.
  abbrev pub update_where : (A → Bool) → (A → A) → List A → List A
  update_where p f [] = []
  update_where p f (x ∷ xs) = let rest = update_where p f xs in if p x then f x ∷ rest else x ∷ rest

  abbrev pub All {κ} : (A → Type κ) → List A → Type κ
  All P [] = Unit
  All P (x ∷ xs) = P x × All P xs

  pub All-append {κ} : (P : A → Type κ) (xs ys : List A) → All P xs → All P ys → All P (xs ++ ys)
  All-append P [] ys hx hy = hy
  All-append P (x ∷ xs) ys hx hy = (hx.0, All-append P xs ys hx.1 hy)

-- `n in l`
abbrev pub contains : ℕ → List ℕ → Bool
contains n [] = false
contains n (m ∷ ms) = n == m || contains n ms

-- One step of each, on an element that passes the test or not.
module _ {ℓ} {A : Type ℓ} (p : A → Bool) (x : A) (xs : List A) where
  pub select_yes : p x ≡ true → select p (x ∷ xs) ≡ x ∷ select p xs
  select_yes e = rw e refl

  pub select_no : p x ≡ false → select p (x ∷ xs) ≡ select p xs
  select_no e = rw e refl

  pub update_yes : (f : A → A) → p x ≡ true → update_where p f (x ∷ xs) ≡ f x ∷ update_where p f xs
  update_yes f e = rw e refl

  pub update_no : (f : A → A) → p x ≡ false → update_where p f (x ∷ xs) ≡ x ∷ update_where p f xs
  update_no f e = rw e refl

  pub find_yes : p x ≡ true → find_first p (x ∷ xs) ≡ some x
  find_yes e = rw e refl

  pub find_no : p x ≡ false → find_first p (x ∷ xs) ≡ find_first p xs
  find_no e = rw e refl

-- Changes to the first element that passes the test.
module _ {ℓ} {A : Type ℓ} where
  abbrev pub any : (A → Bool) → List A → Bool
  any p [] = false
  any p (x ∷ xs) = p x || any p xs

  abbrev pub update_first : (A → Bool) → (A → A) → List A → List A
  update_first p f [] = []
  update_first p f (x ∷ xs) = if p x then f x ∷ xs else x ∷ update_first p f xs

module _ {ℓ κ} {A : Type ℓ} (P : A → Type κ) where
  pub All-update_first :
      (p : A → Bool) (f : A → A) (xs : List A)
      → ((x : A) → P x → P (f x))
      → All P xs
      → All P (update_first p f xs)
  All-update_first p f [] k all = tt
  All-update_first p f (x ∷ xs) k (here, all) = elim (Bool-cases (p x)) [
    | inl y ↦ rw y (k x here, all)
    | inr n ↦ rw n (here, All-update_first p f xs k all)
  ]

  pub All-select : (p : A → Bool) (xs : List A) → All P xs → All P (select p xs)
  All-select p [] all = tt
  All-select p (x ∷ xs) (here, all) = elim (Bool-cases (p x)) [
    | inl y ↦ rw y (here, All-select p xs all)
    | inr n ↦ rw n (All-select p xs all)
  ]

-- The element that a search finds, and a change to it.
module _ {ℓ κ} {A : Type ℓ} (P : A → Type κ) (p : A → Bool) where
  pub find_first-All :
      (xs : List A) (a : A) → find_first p xs ≡ some a → All P xs → P a × (p a ≡ true)
  find_first-All [] a h all = absurd cc
  find_first-All (x ∷ xs) a h (here, all) = elim (Bool-cases (p x)) [
    | inl y ↦
        let e : some x ≡ some a = rw (← h) (rw y refl) in let q : x ≡ a = cc in rw (← q) (here, y)
    | inr n ↦ find_first-All xs a (rw (← h) (rw n refl)) all
  ]

  pub All-update_found :
      (f : A → A) (xs : List A) (a : A)
      → find_first p xs ≡ some a
      → P (f a)
      → All P xs
      → All P (update_first p f xs)
  All-update_found f [] a h new all = tt
  All-update_found f (x ∷ xs) a h new (here, all) = elim (Bool-cases (p x)) [
    | inl y ↦
        let e : some x ≡ some a = rw (← h) (rw y refl) in let q : x ≡ a = cc in rw y (rw q new, all)
    | inr n ↦ rw n (here, All-update_found f xs a (rw (← h) (rw n refl)) new all)
  ]

module _ {ℓ} {A : Type ℓ} (p : A → Bool) where
  -- The changed element is found where the test still holds of it.
  pub find_first-update_first :
      (f : A → A) (xs : List A) (a : A)
      → find_first p xs ≡ some a
      → p (f a) ≡ true
      → find_first p (update_first p f xs) ≡ some (f a)
  find_first-update_first f [] a h k = absurd cc
  find_first-update_first f (x ∷ xs) a h k = elim (Bool-cases (p x)) [
    | inl y ↦
        let e : some x ≡ some a = rw (← h) (rw y refl) in
        let q : x ≡ a = cc in rw y (rw q (rw k refl))
    | inr n ↦ rw n (rw n (find_first-update_first f xs a (rw (← h) (rw n refl)) k))
  ]

  -- An element that is found passes the test.
  pub find_first-holds : (xs : List A) (a : A) → find_first p xs ≡ some a → p a ≡ true
  find_first-holds [] a h = cc
  find_first-holds (x ∷ xs) a h = elim (Bool-cases (p x)) [
    | inl y ↦ let e : some x ≡ some a = rw (← h) (rw y refl) in let q : x ≡ a = cc in rw (← q) y
    | inr n ↦ find_first-holds xs a (rw (← h) (rw n refl))
  ]

module _ {ℓ κ ι} {A : Type ℓ} (P : A → Type κ) (Q : A → Type ι) where
  pub All-map : ((x : A) → P x → Q x) → (xs : List A) → All P xs → All Q xs
  All-map f [] all = tt
  All-map f (x ∷ xs) (here, all) = (f x here, All-map f xs all)
