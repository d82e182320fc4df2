-- ===== src/Pydantic.antt =====
-- What `Model.model_validate` answers. pydantic itself is a parameter of the protocol modules: a
-- function for each model class from what came in to an instance of the class or the errors.
use naia_relay.Errors.{ValidationError, validation_error}
use naia_relay.Call.{Result, ok, raised}

pub data Checked (A : Type 0) : Type 0 where
  valid : A → Checked A
  invalid : ValidationError → Checked A

-- `model_validate` raises what it found.
abbrev pub or_raise : {A : Type 0} → Checked A → Result A
or_raise (valid a) = ok a
or_raise (invalid e) = raised (validation_error e)

abbrev pub map_checked : {A B : Type 0} → (A → B) → Checked A → Checked B
map_checked f (valid a) = valid (f a)
map_checked f (invalid e) = invalid e
