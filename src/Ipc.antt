-- ===== src/Ipc.antt =====
-- clients/desktop/ipc/src/lib.rs: what the agent and the GUI say to each other. The JSON of a line
-- is serde_json's.
use copysync.Prelude.{ℕ, Bool, Option, List, Text}

pub record Status : Type 0 where
  pub paired : Bool
  pub connected : Bool
  pub reconnecting : Bool
  pub server : Text
  pub device : Text
  pub e2e : Bool
  pub pool : Text
  pub pools : List Text
  pub privacy_filter : Bool
  pub mark_sensitive : Bool
  pub auto_clear_secs : ℕ
  pub telemetry : Bool

pub record HistRow : Type 0 where
  pub ts : Text
  pub kind : Text
  pub direction : Text
  pub origin : Text
  pub preview : Text
  pub size : ℕ

pub record RosterDevice : Type 0 where
  pub id : Text
  pub name : Text
  pub online : Bool

pub record FoundServer : Type 0 where
  pub name : Text
  pub url : Text

-- What a `Pair` request carries.
pub record Pairing : Type 0 where
  pub server : Text
  pub otp : Text
  pub name : Text
  pub pin : Text
  pub e2e_pass : Text

pub data Request : Type 0 where
  get_status get_roster discover_servers reconnect subscribe shutdown : Request
  get_history : Option Text → Request
  send_text send_file set_pool : Text → Request
  set_targets : List Text → Request
  set_privacy_filter set_mark_sensitive set_telemetry : Bool → Request
  set_auto_clear : ℕ → Request
  pair : Pairing → Request

-- The message of an error, by what it says.
pub data Failure : Type 0 where
  history_failed search_failed save_failed pair_failed bad_request : Text → Failure
  sync_stopped pairing_needed : Failure

pub data Response : Type 0 where
  status : Status → Response
  history : List HistRow → Response
  roster : List RosterDevice → Response
  found : List FoundServer → Response
  paired : Status → Response
  done : Response
  failed : Failure → Response

-- A clip event as the GUI gets it.
pub record ClipInfo : Type 0 where
  pub direction : Text
  pub kind : Text
  pub text : Option Text
  pub name : Option Text
  pub sensitive : Option Text
  pub size : Option ℕ
  pub origin : Option Text
  pub path : Option Text
  pub on_demand : Option Bool

-- What is pushed to the clients that have subscribed.
pub data Event : Type 0 where
  status : Status → Event
  clip : ClipInfo → Event
  roster : List RosterDevice → Event
  error : Text → Event
  reconnect : Text → Event
  notify : Text → Text → Event
  cliplog : Text → Event

-- A line that the agent writes.
pub data Outbound : Type 0 where
  reply : Response → Outbound
  event : Event → Outbound
