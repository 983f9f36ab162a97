-- ===== src/Protocol/TargetsJson.antt =====
-- `Serialize` and `Deserialize` of `Targets` in clients/desktop/core/src/protocol.rs.
use mathlib.Core.Option
use copysync.Prelude.{
  ◌≡◌, refl, Option, none, some, List, [], ◌∷◌, Text, codes, text_eq, if◌then◌else◌,
}
use copysync.Protocol.Json.{Json, null, str, arr, Items, nil, cons}
use copysync.Protocol.{Targets, to_all, to_devices}

pub data TargetsError : Type 0 where
  unknown_targets : Text → TargetsError
  bad_array not_targets : TargetsError

pub data Parsed : Type 0 where
  ok : Targets → Parsed
  err : TargetsError → Parsed

-- A `Vec<String>` as a JSON array, and back.
strings : List Text → Items
strings [] = nil
strings (s ∷ l) = cons (str s) (strings l)

cons_string : Json → Option (List Text) → Option (List Text)
cons_string (str s) rest = Option.map (λ l. s ∷ l) rest
cons_string _ rest = none

from_strings : Items → Option (List Text)
unfolding cons_string
from_strings nil = some []
from_strings (cons j items) = cons_string j (from_strings items)

unfoldable pub serialize : Targets → Json
unfolding strings
serialize to_all = str (codes "all")
serialize (to_devices d) = arr (strings d)

parsed_array : Option (List Text) → Parsed
parsed_array none = err bad_array
parsed_array (some ids) = ok (to_devices ids)

unfoldable pub deserialize : Json → Parsed
unfolding from_strings parsed_array
deserialize null = ok (to_devices [])
deserialize (str s) = if text_eq s (codes "all") then ok to_all else err (unknown_targets s)
deserialize (arr items) = parsed_array (from_strings items)
deserialize _ = err not_targets

from_strings-strings : (l : List Text) → from_strings (strings l) ≡ some l
unfolding from_strings strings
from_strings-strings [] = refl
from_strings-strings (s ∷ l) = rw (from_strings-strings l)

-- A recipient selector that is sent is read back as it was, any list of device ids included.
pub deserialize-serialize : (t : Targets) → deserialize (serialize t) ≡ ok t
unfolding deserialize serialize text_eq
deserialize-serialize to_all = refl
deserialize-serialize (to_devices d) = rw (from_strings-strings d)
