-- ===== src/Discovery.antt =====
-- clients/desktop/core/src/discovery.rs: the servers that an mDNS browse finds. What the daemon
-- resolves before the deadline is an argument.
pub mod Once
use copysync.Prelude.{
  trim_end_matches, Bool, true, false, Option, none, some, List, [], ◌∷◌, ◌++◌, Text, codes, all,
  ◌==◌, member, if◌then◌else◌,
}

pub record Found : Type 0 where
  pub name : Text
  pub url : Text

-- The `name` property, the host's name, the port in decimal, and the addresses, those of IPv4 told.
pub record Service : Type 0 where
  pub name : Option Text
  pub hostname : Text
  pub port : Text
  pub addresses : List (Bool × Text)

-- A tick of the loop: a service, another event, or none within its time.
pub data Tick : Type 0 where
  resolved : Service → Tick
  other timed_out : Tick

-- `out` and `seen`.
pub record Browse : Type 0 where
  pub out : List Found
  pub seen : List Text

abbrev pub display_name : Service → Text
display_name s = elim s.name [ none ↦ trim_end_matches b'.' s.hostname | some n ↦ n ]

abbrev pub url_of : Text → Text → Text
url_of address port = codes "https://" ++ (address ++ (b':' ∷ port))

-- `seen.insert(url)`, and the server if it is new.
unfoldable pub add_url : Text → Text → Browse → Browse
add_url name url b =
    if member url b.seen
    then b
    else record { out = b.out ++ record { name = name; url = url } ∷ []; seen = b.seen ++ url ∷ [] }

unfoldable pub add_addresses : Text → Text → List (Bool × Text) → Browse → Browse
add_addresses name port [] b = b
add_addresses name port ((false, address) ∷ l) b = add_addresses name port l b
add_addresses name port ((true, address) ∷ l) b =
    add_addresses name port l (add_url name (url_of address port) b)

unfoldable pub on_tick : Tick → Browse → Browse
on_tick (resolved s) b = add_addresses (display_name s) s.port s.addresses b
on_tick other b = b
on_tick timed_out b = b

unfoldable pub browse : List Tick → Browse → Browse
browse [] b = b
browse (t ∷ ts) b = browse ts (on_tick t b)

-- The daemon starts or not.
unfoldable pub discover : Bool → List Tick → Option (List Found)
discover false ticks = none
discover true ticks = some (browse ticks (record { out = []; seen = [] })).out
