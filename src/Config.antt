-- ===== src/Config.antt =====
-- clients/desktop/core/src/config.rs: the persisted identity; and `decode_pin` of
-- clients/desktop/core/src/pinning.rs. Reading and writing the file is not modelled.
use copysync.Prelude.{
  ℕ, Bool, ◌||◌, Option, none, some, List, [], ◌∷◌, Text, Bytes, is_empty, length, ◌==◌,
  if◌then◌else◌,
}
use copysync.Privacy.Chars.{trim}
use copysync.World.{Crates}
use copysync.E2e.{derive_key, key_id}

pub record Config : Type 0 where
  pub server_url : Text
  pub server_name : Text
  pub server_id : Text
  pub device_id : Text
  pub device_name : Text
  pub token : Text
  pub pin : Text
  pub e2e_pass : Text
  pub exclude_sensitive : Bool
  pub sensitive_ttl_secs : ℕ
  pub custom_patterns : List Text
  pub quick_panel_shortcut : Text
  pub auto_clear_secs : ℕ
  pub mark_received_sensitive : Bool
  pub telemetry : Bool

-- The derived key and its id.
abbrev pub Key : Type 0
Key = Bytes × Text

unfoldable pub decode_pin : Crates → Text → Option Bytes
decode_pin w b64 = elim (w.unbase64 (trim b64)) [
  | none ↦ none
  | some v ↦ if length v == 32 then some v else none
]

-- `custom_regexes`: those that compile.
unfoldable pub custom_regexes : (Text → Option (Text → Bool)) → List Text → List (Text → Bool)
custom_regexes regex [] = []
custom_regexes regex (p ∷ ps) =
    let rest = custom_regexes regex ps in elim (regex p) [ none ↦ rest | some r ↦ r ∷ rest ]

unfoldable pub e2e_key : Crates → Config → Option Key
e2e_key w c =
    if is_empty c.e2e_pass || is_empty c.server_id
    then none
    else (let k = derive_key w c.e2e_pass c.server_id in some (k, key_id w k))
