-- ===== src/Protocol/Json.antt =====
-- The values of crate serde_json, as far as the wire types need them; numbers are whole.
use copysync.Prelude.{ℕ, Bool, Option, none, some, [], Text, text_eq, if◌then◌else◌}

mutual
  pub data Json : Type 0 where
    null : Json
    bool : Bool → Json
    num : ℕ → Json
    str : Text → Json
    arr : Items → Json
    obj : Fields → Json

  pub data Items : Type 0 where
    nil : Items
    cons : Json → Items → Items

  pub data Fields : Type 0 where
    end : Fields
    field : Text → Json → Fields → Fields

-- `Value::get` of a key; an object has a key once.
unfoldable pub get_field : Text → Fields → Option Json
get_field k end = none
get_field k (field j v rest) = if text_eq j k then some v else get_field k rest

unfoldable pub get : Text → Json → Option Json
unfolding get_field
get k (obj fields) = get_field k fields
get k _ = none

unfoldable pub as_str : Json → Option Text
as_str (str s) = some s
as_str _ = none

unfoldable pub as_num : Json → Option ℕ
as_num (num n) = some n
as_num _ = none

unfoldable pub as_bool : Json → Option Bool
as_bool (bool b) = some b
as_bool _ = none

abbrev pub and_then {ℓ κ} : {A : Type ℓ} {B : Type κ} → Option A → (A → Option B) → Option B
and_then none f = none
and_then (some a) f = f a

abbrev pub or_empty : Option Text → Text
or_empty none = []
or_empty (some t) = t
