-- ===== src/Agent/Connection.antt =====
-- `handle_conn` of clients/desktop/agent/src/main.rs: one client of the agent. What the socket and
-- the broadcast channel answer is the sequence of wake-ups.
use copysync.Prelude.{
  ℕ, Bool, true, false, not, ◌&&◌, Option, none, some, List, [], ◌∷◌, ◌++◌, length, take, leb,
  if◌then◌else◌,
}
use copysync.World.{Crates}
use copysync.Ipc.{Response, Event, Outbound}
use copysync.Agent.Requests.{Agent, Answers, Input, status_snapshot, roster_to_ipc, process_line}

-- The variables of the loop, what has been written, and whether the loop goes on.
pub record Conn : Type 0 where
  pub subscribed : Bool
  pub rx : Bool
  pub written : List Outbound
  pub alive : Bool

abbrev pub accepted : Conn
accepted = record { subscribed = false; rx = false; written = []; alive = true }

-- A line, the end of the stream or a failure of it; an event of the channel, the news that some
-- were dropped, or that no sender is left.
pub data Wake : Type 0 where
  line : Input → Wake
  eof read_failed : Wake
  pushed : Event → Wake
  lagged bus_closed : Wake

-- `room` lines can be written before a write fails, which ends the connection.
unfoldable pub write_lines : ℕ → List Outbound → Conn → Conn
write_lines room lines c = record c {
  written = c.written ++ take room lines;
  alive = leb (length lines) room;
}

abbrev reply_lines : Option Response → List Outbound
reply_lines none = []
reply_lines (some r) = Outbound.reply r ∷ []

-- The full pushed state, after events have been dropped.
unfoldable pub resync : Agent → List Outbound
resync a =
    Outbound.event (Event.status (status_snapshot a))
    ∷ Outbound.event (Event.roster (roster_to_ipc a.roster))
    ∷ []

module _ (w : Crates) where
  unfoldable pub on_line : Answers → ℕ → Input → Conn → Agent → Conn × Agent
  on_line o room i c a =
      let (reply, subscribed, a1) = process_line w o i c.subscribed a in
      let fresh = not c.rx && (subscribed && not c.subscribed) in
      let snapshot = Outbound.event (Event.status (status_snapshot a1)) ∷ [] in
      let lines = if fresh then reply_lines reply ++ snapshot else reply_lines reply in
      let c1 = record c { subscribed = subscribed; rx = if fresh then true else c.rx } in
      (write_lines room lines c1, a1)

  -- The channel is only listened to while there is a receiver.
  unfoldable pub on_wake : Answers → ℕ → Wake → Conn → Agent → Conn × Agent
  on_wake o room (line i) c a = on_line o room i c a
  on_wake o room eof c a = (record c { alive = false }, a)
  on_wake o room read_failed c a = (record c { alive = false }, a)
  on_wake o room (pushed e) c a =
      (if c.rx then write_lines room (Outbound.event e ∷ []) c else c, a)
  on_wake o room lagged c a = (if c.rx then write_lines room (resync a) c else c, a)
  on_wake o room bus_closed c a = (record c { rx = false }, a)
