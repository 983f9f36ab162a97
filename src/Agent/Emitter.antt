-- ===== src/Agent/Emitter.antt =====
-- `BroadcastEmitter` of clients/desktop/agent/src/main.rs, with `clip_to_info`: what each callback
-- of the engine pushes to the clients; and the JSON that engine.rs hands to `Emitter::clip`.

use copysync.Prelude.{List, Text, codes}
use copysync.Protocol.Json.{
  get, as_str, as_num, as_bool, and_then, or_empty, Json, bool, num, str, obj, Fields, end, field,
}
use copysync.Engine.Roster
use copysync.Engine.State
use copysync.Engine.State.{out_text, out_sensitive, out_blob, out_image, in_blob, in_text}
use copysync.Ipc
use copysync.Ipc.{Event}
use copysync.Agent.Telemetry
use copysync.Agent.Telemetry.{warn, reconnect_noted, engine_error}
use copysync.Agent.Requests.{Agent, Answers, status_to_ipc, roster_to_ipc, log}

abbrev direction : Text → Fields → Fields
direction d rest = field (codes "direction") (str d) rest

abbrev kind : Text → Fields → Fields
kind k rest = field (codes "kind") (str k) rest

-- The `json!` of each call of `emit.clip`.
unfoldable pub payload : State.ClipInfo → Json
payload (out_text text) =
    obj (direction (codes "out") (kind (codes "text") (field (codes "text") (str text) end)))
payload (out_sensitive text label) = obj (
    direction (codes "out") (
      kind (codes "text")
        (field (codes "text") (str text) (field (codes "sensitive") (str label) end))))
payload (out_blob k name size on_demand) = obj (
    direction (codes "out") (
      kind k (
        field (codes "name") (str name)
          (field (codes "size") (num size) (field (codes "onDemand") (bool on_demand) end)))))
payload (out_image name size) = obj (
    direction (codes "out") (
      kind (codes "image") (field (codes "name") (str name) (field (codes "size") (num size) end))))
payload (in_blob k name size path) = obj (
    direction (codes "in") (
      kind k (
        field (codes "name") (str name)
          (field (codes "size") (num size) (field (codes "path") (str path) end)))))
payload (in_text text origin) = obj (
    direction (codes "in") (
      kind (codes "text")
        (field (codes "text") (str text) (field (codes "origin") (str origin) end))))

unfoldable pub clip_to_info : Json → Ipc.ClipInfo
unfolding get as_str as_num as_bool
clip_to_info v =
    let s = λ (k : Text). and_then (get k v) as_str in
    record {
      direction = or_empty (s (codes "direction"));
      kind = or_empty (s (codes "kind"));
      text = s (codes "text");
      name = s (codes "name");
      sensitive = s (codes "sensitive");
      size = and_then (get (codes "size") v) as_num;
      origin = s (codes "origin");
      path = s (codes "path");
      on_demand = and_then (get (codes "onDemand") v) as_bool;
    }

-- The methods of `trait Emitter`.
pub data Callback : Type 0 where
  status : State.Status → Callback
  clip : Json → Callback
  roster : List Roster.RosterDevice → Callback
  reconnect error cliplog : Text → Callback
  notify : Text → Text → Callback

-- The event that goes to the broadcast channel; the toast of the operating system is not modelled.
unfoldable pub callback : Answers → Callback → Agent → Event × Agent
callback o (status s) a = (
  Event.status (status_to_ipc s a.exclude_sensitive a.mark_sensitive a.auto_clear_secs a.telemetry),
  a,
)
callback o (clip v) a = (Event.clip (clip_to_info v), a)
callback o (roster r) a = (Event.roster (roster_to_ipc r), record a { roster = r })
callback o (reconnect i) a = (Event.reconnect i, log o warn (reconnect_noted i) a)
callback o (error msg) a = (Event.error msg, log o Telemetry.error (engine_error msg) a)
callback o (cliplog msg) a = (Event.cliplog msg, a)
callback o (notify title body) a = (Event.notify title body, a)
