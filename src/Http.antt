-- ===== src/Http.antt =====
-- What a service function ends with: a value, or an exception that the router turns into a status;
-- and the ways in which the services chain such results.
use croar_backend_new.Prelude.{◌≡◌, refl, Bool, true, false, Option, none, some}

pub data HttpError : Type 0 where
  bad_request not_found conflict unprocessable server_error : HttpError

pub data Outcome (A : Type 0) : Type 0 where
  ok : A → Outcome A
  raise : HttpError → Outcome A

module _ {B : Type 0} where
  -- `if b: raise e`
  abbrev pub raise_if : Bool → HttpError → Outcome B → Outcome B
  raise_if true e k = raise e
  raise_if false e k = k

  -- What a chain that succeeds went through.
  pub raise_if_ok :
      (b : Bool) (e : HttpError) (k : Outcome B) (y : B)
      → raise_if b e k ≡ ok y
      → (b ≡ false) × (k ≡ ok y)
  raise_if_ok true e k y h = cc
  raise_if_ok false e k y h = (refl, h)

module _ {A B : Type 0} where
  -- `if a is None: raise e`
  abbrev pub found_or : Option A → HttpError → (A → Outcome B) → Outcome B
  found_or none e k = raise e
  found_or (some a) e k = k a

  -- An exception goes through.
  abbrev pub then_ok : Outcome A → (A → Outcome B) → Outcome B
  then_ok (ok a) k = k a
  then_ok (raise e) k = raise e

  pub found_or_ok :
      (o : Option A) (e : HttpError) (k : A → Outcome B) (y : B)
      → found_or o e k ≡ ok y
      → (a : A) × (o ≡ some a) × (k a ≡ ok y)
  found_or_ok none e k y h = cc
  found_or_ok (some a) e k y h = (a, refl, h)

  pub then_ok_ok :
      (o : Outcome A) (k : A → Outcome B) (y : B)
      → then_ok o k ≡ ok y
      → (a : A) × (o ≡ ok a) × (k a ≡ ok y)
  then_ok_ok (ok a) k y h = (a, refl, h)
  then_ok_ok (raise e) k y h = cc

pub ok-inj : {A : Type 0} → (x y : A) → ok x ≡ ok y → x ≡ y
ok-inj x y h = cc
