-- ===== src/Engine/Roster.antt =====
-- The roster of clients/desktop/core/src/engine.rs: `set_roster`, `apply_presence` and
-- `clip_origin_name`, over the wire types of clients/desktop/core/src/protocol.rs.
pub mod Laws
use copysync.Prelude.{
  Bool, true, false, not, ◌||◌, Option, none, some, List, [], ◌∷◌, ◌++◌, map, Text, codes, text_eq,
  is_empty, if◌then◌else◌,
}
use copysync.Protocol.{DeviceInfo, Presence}

-- engine.rs
pub record RosterDevice : Type 0 where
  pub id : Text
  pub name : Text
  pub online : Bool

unfoldable pub set_roster : List DeviceInfo → List RosterDevice
set_roster = map λ d. record { id = d.device.id; name = d.device.name; online = d.online }

unfoldable pub find : Text → List RosterDevice → Option RosterDevice
find k [] = none
find k (d ∷ r) = if text_eq d.id k then some d else find k r

-- The entry that `find` gives is written in place.
unfoldable pub update : Text → Text → Bool → List RosterDevice → List RosterDevice
update k name online [] = []
update k name online (d ∷ r) =
    if text_eq d.id k
    then record d { name = name; online = online } ∷ r
    else d ∷ update k name online r

unfoldable pub apply_presence : List RosterDevice → Presence → List RosterDevice
apply_presence r p = elim (find p.device.id r) [
  | some d ↦ update p.device.id p.device.name p.online r
  | none ↦ r ++ record { id = p.device.id; name = p.device.name; online = p.online } ∷ []
]

-- "다른 기기", another device.
abbrev pub other_device : Text
other_device = codes "다른 기기"

unfoldable pub clip_origin_name : List RosterDevice → Text → Text
clip_origin_name r origin = elim (find origin r) [
  | none ↦ other_device
  | some d ↦ if is_empty d.name then other_device else d.name
]
