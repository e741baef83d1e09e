-- ===== src/Assets/Examples.antt =====
-- A laptop that is handed out and comes back damaged.
use croar_backend_new.Prelude.{◌≡◌, refl, some, none, List, [], ◌∷◌}
use croar_backend_new.Text.{codes}
use croar_backend_new.Http.{ok, raise, conflict, server_error, then_ok}
use croar_backend_new.Assets.{
  Details, Asset, AssetIn, AssignIn, assigned, in_repair, damaged, handed, new_asset, create_asset,
  update_asset, set_status, delete_asset, assign, take_back,
}
use croar_backend_new.Assets.Custody.{out, shelved, AllInStep, hand, step-AllInStep}
use croar_backend_new.Assets.Register.{take, perform, next, status_in, perform-next}

abbrev details : Details
details = record {
  name = codes "MacBook";
  category = codes "laptop";
  brand = none;
  model = none;
  serial_number = none;
  licence_key = none;
  ownership = codes "company";
  purchased_on = none;
  purchase_cost = none;
}

abbrev form : AssetIn
form = record { asset_tag = codes " IT-001 "; details = details; notes = none }

abbrev terms : AssignIn
terms = record { due_back_on = none; note = none }

abbrev laptop : Asset
laptop = new_asset 1 form

program : Unit {0}
unfolding create_asset update_asset set_status delete_asset assign take_back
program = tt

-- A tag in another case clashes; once the asset is deleted, the same tag breaks the constraint.
clash : create_asset 2 (record form { asset_tag = codes "it-001" }) (laptop ∷ []) ≡ raise conflict
unfolding program
clash = refl

deleted_tag :
    then_ok (delete_asset 1 (laptop ∷ [])) (λ s. create_asset 2 form s) ≡ raise server_error
unfolding program
deleted_tag = refl

round :
    status_in 1
      (then_ok (assign 50 9 1 (some 7) terms (laptop ∷ [])) (λ s. take_back 60 9 1 damaged none s))
    ≡ ok in_repair
unfolding program
round = refl

second_holder :
    then_ok (assign 50 9 1 (some 7) terms (laptop ∷ [])) (λ s. assign 55 9 1 (some 8) terms s)
    ≡ raise conflict
unfolding program
second_holder = refl

abbrev lent : List Asset
lent = handed 50 9 7 terms laptop ∷ []

handing : assign 50 9 1 (some 7) terms (laptop ∷ []) ≡ ok lent
unfolding program
handing = refl

step-AllInStep_example : AllInStep lent
step-AllInStep_example =
    step-AllInStep (laptop ∷ []) lent (shelved refl refl, tt) (hand 50 9 1 (some 7) terms handing)

perform-next_example :
    status_in 1 (perform (take 60 9 damaged none) 1 lent) ≡ next (take 60 9 damaged none) assigned
perform-next_example =
    perform-next (take 60 9 damaged none) 1 lent (handed 50 9 7 terms laptop)
      (out refl refl refl, tt) refl
