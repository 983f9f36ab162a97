-- ===== src/Gui/App/Following.antt =====
-- A subscribed GUI beside the agent: `subscribe_stream` of clients/desktop/gui/src/main.rs, over
-- the connection of clients/desktop/agent/src/main.rs and a broadcast channel of tokio, of which
-- all that is used is what its documentation says: events come in order, and where some of the
-- oldest were dropped, the next `recv` answers `Lagged`.
pub mod CaughtUp
pub mod Events
pub mod Roster
use copysync.Prelude.{ℕ, suc, Bool, true, false, List, [], ◌∷◌, ◌++◌, drop, if◌then◌else◌}
use copysync.World.{Crates}
use copysync.Ipc.{Request, get_roster, Event, Outbound}
use copysync.Agent.Requests.{Agent, Answers, handle_request}
use copysync.Agent.Emitter.{Callback, callback}
use copysync.Agent.Connection.{Conn, Wake, pushed, lagged, on_wake}
use copysync.Gui.App.{App, Peer, replied, on_event, take_roster}

-- A reply to the subscription is ignored.
unfoldable pub follow : Peer → Outbound → App → App
follow p (Outbound.event e) s = on_event p e s
follow p (Outbound.reply r) s = s

unfoldable pub follow_all : Peer → List Outbound → App → App
follow_all p [] s = s
follow_all p (l ∷ ls) s = follow_all p ls (follow p l s)

-- The agent, the events that the channel keeps for this client, whether some were dropped, and the
-- GUI.
pub record Link : Type 0 where
  pub agent : Agent
  pub queue : List Event
  pub dropped : Bool
  pub app : App

-- The state of a connection that streams.
abbrev streaming : Conn
streaming = record { subscribed = true; rx = true; written = []; alive = true }

-- A callback of the engine, a request of any client, the loss of the `suc n` oldest events, a
-- turn of the connection, and a pull of the roster by the GUI itself.
pub data Move : Type 0 where
  called : Answers → Callback → Move
  asked : Answers → Request → Move
  overflow : ℕ → Move
  turn : Answers → Move
  pull : Answers → Move

module _ (w : Crates) (p : Peer) where
  -- One round of the connection that writes all its lines, which the GUI reads.
  unfoldable pub stream : Answers → Wake → Link → Link
  stream o wake l =
      let (c, a) = on_wake w o 2 wake streaming l.agent in
      record l { agent = a; app = follow_all p c.written l.app }

  unfoldable pub next_event : Answers → List Event → Link → Link
  next_event o [] l = l
  next_event o (e ∷ es) l = stream o (pushed e) (record l { queue = es })

  -- `events.recv()` and what the connection does with it.
  unfoldable pub receive : Answers → Link → Link
  receive o l =
      if l.dropped then stream o lagged (record l { dropped = false }) else next_event o l.queue l

  unfoldable pub move : Move → Link → Link
  move (called o cb) l =
      let (e, a) = callback o cb l.agent in record l { agent = a; queue = l.queue ++ e ∷ [] }
  move (asked o r) l = record l { agent = (handle_request w o r l.agent).1 }
  move (overflow n) l = record l { queue = drop (suc n) l.queue; dropped = true }
  move (turn o) l = receive o l
  move (pull o) l =
      let (reply, a) = handle_request w o get_roster l.agent in
      record l { agent = a; app = take_roster p (replied reply) l.app }

  unfoldable pub moves : List Move → Link → Link
  moves [] l = l
  moves (m ∷ ms) l = moves ms (move m l)
