-- ===== src/Protocol.antt =====
-- clients/desktop/core/src/protocol.rs: the wire types that the engine uses.
pub mod Json
pub mod TargetsJson
pub mod NewText
use copysync.Prelude.{
  ℕ, Bool, true, false, not, Option, none, some, List, [], ◌∷◌, Text, codes, starts_with, is_empty,
  first, if◌then◌else◌,
}
use copysync.Prelude.Int.{ℤ}

pub record Device : Type 0 where
  pub id : Text
  pub name : Text
  pub platform : Text
  pub pool : Text
  pub created_at : Text
  pub last_seen_at : Text
  pub revoked : Bool

pub record DeviceInfo : Type 0 where
  pub device : Device
  pub online : Bool

pub record HelloOk : Type 0 where
  pub server_id : Text
  pub server_name : Text
  pub e2e : Bool
  pub you : Device
  pub roster : List DeviceInfo
  pub max_msg : ℤ
  pub blob_cap : ℤ
  pub on_demand_threshold : ℤ
  pub pools : List Text
  pub pool : Text

pub record Presence : Type 0 where
  pub device : Device
  pub online : Bool

pub record EncMeta : Type 0 where
  pub alg : Text
  pub key_id : Text
  pub nonce : Text

pub data Targets : Type 0 where
  to_all : Targets
  to_devices : List Text → Targets

pub record ClipEvent : Type 0 where
  pub id : Text
  pub origin_device : Text
  pub seq : ℕ
  pub ts : Text
  pub mime : List Text
  pub inline_text : Text
  pub html : Text
  pub blob_id : Text
  pub name : Text
  pub on_demand : Bool
  pub size : ℕ
  pub sha256 : Text
  pub targets : Targets
  pub enc : Option EncMeta

-- `ClipEvent::default()`
abbrev pub default_event : ClipEvent
default_event = record {
  id = [];
  origin_device = [];
  seq = 0;
  ts = [];
  mime = [];
  inline_text = [];
  html = [];
  blob_id = [];
  name = [];
  on_demand = false;
  size = 0;
  sha256 = [];
  targets = to_all;
  enc = none;
}

unfoldable pub is_blob : ClipEvent → Bool
is_blob ev = not (is_empty ev.blob_id)

-- `ev.mime.first().map(|m| m.starts_with("image/")).unwrap_or(false)`
unfoldable pub is_image : ClipEvent → Bool
is_image ev = elim (first ev.mime) [ none ↦ false | some m ↦ starts_with m (codes "image/") ]

unfoldable pub kind : ClipEvent → Text
unfolding is_blob is_image
kind ev = if is_blob ev then (if is_image ev then codes "image" else codes "file") else codes "text"
