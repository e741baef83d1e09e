-- ===== src/Attendance/Shifts.antt =====
-- app/router/enterprise/attendance.py: the shifts of a company and the default one. Names are unique
-- by a constraint that counts deleted rows.
use croar_backend_new.Prelude.{
  ℕ, Bool, true, false, not, ◌&&◌, List, ◌∷◌, find_first, update_first, update_where, any, ◌==◌,
  ltb, if◌then◌else◌,
}
use croar_backend_new.Text.{Text, text_eq}
use croar_backend_new.Http.{Outcome, ok, bad_request, not_found, server_error, raise_if, found_or}
use croar_backend_new.Attendance.{Shift, State}
use croar_backend_new.Attendance.Days.{live_shift}

pub record ShiftIn : Type 0 where
  pub name : Text
  pub starts_at : ℕ
  pub half_day_after_minutes : ℕ
  pub full_day_after_minutes : ℕ
  pub is_default : Bool

abbrev pub live_default : Shift → Bool
live_default s = s.is_default && not s.deleted

abbrev pub demoted : Shift → Shift
demoted s = record s { is_default = false }

unfoldable pub clear_default : List Shift → List Shift
clear_default shifts = update_where live_default demoted shifts

abbrev pub named : (Shift → Bool) → Text → List Shift → Bool
named other name = any (λ s. text_eq s.name name && other s)

abbrev pub new_shift : ℕ → ShiftIn → Shift
new_shift new i = record {
  id = new;
  name = i.name;
  starts_at = i.starts_at;
  half_day_after_minutes = i.half_day_after_minutes;
  full_day_after_minutes = i.full_day_after_minutes;
  is_default = i.is_default;
  deleted = false;
}

unfoldable pub create_shift : ℕ → ShiftIn → State → Outcome State
create_shift new i s =
    raise_if (ltb i.full_day_after_minutes i.half_day_after_minutes) bad_request (
      raise_if (named (λ t. true) i.name s.shifts) server_error (
        ok (record s {
          shifts = new_shift new i ∷ (if i.is_default then clear_default s.shifts else s.shifts);
        })))

abbrev pub set_shift : ShiftIn → Shift → Shift
set_shift i s = record s {
  name = i.name;
  starts_at = i.starts_at;
  half_day_after_minutes = i.half_day_after_minutes;
  full_day_after_minutes = i.full_day_after_minutes;
  is_default = i.is_default;
}

unfoldable pub update_shift : ℕ → ShiftIn → State → Outcome State
update_shift id i s = found_or (find_first (live_shift id) s.shifts) not_found (λ shift.
    raise_if (named (λ t. not (t.id == shift.id)) i.name s.shifts) server_error (
      ok (record s {
        shifts =
            update_first (live_shift id) (set_shift i)
              (if i.is_default && not shift.is_default then clear_default s.shifts else s.shifts);
      })))

abbrev pub drop_shift : Shift → Shift
drop_shift s = record s { deleted = true }

unfoldable pub delete_shift : ℕ → State → Outcome State
delete_shift id s =
    found_or (find_first (live_shift id) s.shifts) not_found
      (λ shift. ok (record s { shifts = update_first (live_shift id) drop_shift s.shifts }))
