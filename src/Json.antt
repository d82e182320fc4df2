-- ===== src/Json.antt =====
-- JSON values, as Python's json module loads them: a `dict` with string keys is an `Object`.
-- Integers are ℤ; a float stands by its literal, since the program computes with none.
mod Numbers
pub mod Laws
pub use Numbers.{ℤ, pos, negsuc, decimal}
use naia_relay.Prelude.{
  String, List, [], ◌∷◌, Option, none, some, ◌==◌, if◌then◌else◌, Bool, true, false, ℕ,
}

mutual
  pub data Value : Type 0 where
    null : Value
    bool : Bool → Value
    num : ℤ → Value
    real : String → Value
    str : String → Value
    arr : Items → Value
    dict : Object → Value

  pub data Items : Type 0 where
    nil : Items
    cons : Value → Items → Items

  pub data Object : Type 0 where
    empty : Object
    field : String → Value → Object → Object

unfoldable pub items : List Value → Items
items [] = nil
items (v ∷ vs) = cons v (items vs)

-- A list of values as one value.
unfoldable pub array : List Value → Value
unfolding items
array vs = arr (items vs)

-- A dict literal.
unfoldable pub object : List (String × Value) → Object
object [] = empty
object ((k, v) ∷ fs) = field k v (object fs)

-- o.get(k)
unfoldable pub get : String → Object → Option Value
get k empty = none
get k (field j v o) = if j == k then some v else get k o

-- o[k] = v
unfoldable pub put : String → Value → Object → Object
put k v empty = field k v empty
put k v (field j w o) = if j == k then field j v o else field j w (put k v o)

-- o.setdefault(k, v)
unfoldable pub set_default : String → Value → Object → Object
unfolding get put
set_default k v o = elim (get k o) [ none ↦ put k v o | some _ ↦ o ]

-- `x` or `None`, for an optional string.
abbrev pub opt_str : Option String → Value
opt_str none = null
opt_str (some s) = str s

abbrev pub nat : ℕ → Value
nat n = num (pos n)

-- Python's truth test: the empty text, list and dict, zero, False and None are false. A float
-- literal is false if it is a zero.
unfoldable pub truthy : Value → Bool
truthy null = false
truthy (bool b) = b
truthy (num (pos ℕ.zero)) = false
truthy (num _) = true
truthy (real s) = if s == "0.0" then false else if s == "-0.0" then false else true
truthy (str s) = if s == "" then false else true
truthy (arr nil) = false
truthy (arr _) = true
truthy (dict empty) = false
truthy (dict _) = true

-- isinstance(v, dict)
abbrev pub as_object : Value → Option Object
as_object (dict o) = some o
as_object _ = none

-- isinstance(v, str)
abbrev pub as_str : Value → Option String
as_str (str s) = some s
as_str _ = none

-- v == "text", for what `o.get(k)` answers.
abbrev pub is_text : String → Option Value → Bool
is_text text (some (str s)) = s == text
is_text text _ = false
