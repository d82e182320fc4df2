-- ===== src/Errors.antt =====
-- The exceptions that the program raises or catches: errors/__init__.py, Python's own ValueError,
-- KeyError, AttributeError and RuntimeError, and pydantic's ValidationError. An exception of any
-- other class is known by its class name and its text.
use naia_relay.Prelude.{◌⊎◌, String, List, ℕ, Bool, true, false}
use naia_relay.Json.{Value, Object, str}

-- One part of the place of a validation error.
pub data LocPart : Type 0 where
  key : String → LocPart
  index : ℕ → LocPart

-- One item of `ValidationError.errors()`.
pub record ErrorItem : Type 0 where
  pub loc : List LocPart
  pub msg : String
  pub kind : String
  pub input : Value

-- `errors()` is never empty, so the first item stands apart.
pub record ValidationError : Type 0 where
  pub first : ErrorItem
  pub others : List ErrorItem

-- `data` is what the raiser passes, a dict or not; `data or {}` makes it `{}` when it is false.
pub record ProtocolError : Type 0 where
  pub message : String
  pub code : String
  pub error_data : Value

pub data Exn : Type 0 where
  value_error : String → Exn
  key_error : String → Exn
  attribute_error : String → Exn
  runtime_error : String → Exn
  validation_error : ValidationError → Exn
  protocol_error : ProtocolError → Exn
  transport_error : String → Exn
  configuration_error : String → Exn
  other_error : String → String → Exn

-- `isinstance(exc, (ValidationError, ValueError))`
abbrev pub is_value_error : Exn → Bool
is_value_error (value_error _) = true
is_value_error (validation_error _) = true
is_value_error _ = false

-- What the interpreter says of an exception, `str(exc)` and `type(exc).__name__`, and of a value
-- that is no text, `str(value)`; and the text of the TypeError or AttributeError that an operation
-- raises on a value of the wrong type; and what `dict(value)` raises or gives when the value is no
-- dict.
pub record Interpreter : Type 0 where
  pub str_exc : Exn → String
  pub type_name : Exn → String
  pub str_value : Value → String
  pub type_error : String → Value → String
  pub to_dict : Value → Exn ⊎ Object

-- str(value)
abbrev pub to_text : Interpreter → Value → String
to_text python (str s) = s
to_text python v = python.str_value v
