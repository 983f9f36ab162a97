-- ===== src/Agent/Telemetry.antt =====
-- The telemetry buffer of clients/desktop/agent/src/main.rs: `tlog` and one cycle of
-- `telemetry_uploader`, in which the upload itself is awaited while the agent goes on logging.
pub mod Buffer
use copysync.Prelude.{
  ℕ, suc, Bool, true, false, not, ◌||◌, is_empty, Option, none, some, List, [], ◌∷◌, ◌++◌, Text,
  leb, ltb, length, take, drop, min, if◌then◌else◌,
}
use copysync.World.{Crates}
use copysync.Config.{Config, decode_pin}

-- `telemetry::Line`; a message is made of what the agent puts into it.
pub data Message : Type 0 where
  engine_start : Text → Text → Bool → Message
  actor_returned : Message
  actor_panicked : ℕ → ℕ → Message
  telemetry_set : Bool → Message
  pair_succeeded shutdown_requested : Message
  pair_failed : Text → Message
  reconnect_noted engine_error : Text → Message

pub data Level : Type 0 where
  info warn error : Level

pub record Line : Type 0 where
  pub level : Level
  pub ts : Text
  pub msg : Message

abbrev pub telemetry_buf_cap : ℕ
telemetry_buf_cap = 500

unfoldable pub tlog : Line → List Line → List Line
tlog line b = (if leb telemetry_buf_cap (length b) then drop 1 b else b) ++ line ∷ []

-- `b.drain(..b.len().min(200))`: the batch and what stays.
unfoldable pub drain : List Line → List Line × List Line
drain b = let n = min (length b) 200 in (take n b, drop n b)

-- `b.pop_back()`
abbrev pub pop_back : List Line → List Line
pop_back [] = []
pop_back (x ∷ []) = []
pop_back (x ∷ y ∷ b) = x ∷ pop_back (y ∷ b)

unfoldable pub push_front : Line → List Line → List Line
push_front line b =
    if ltb telemetry_buf_cap (length (line ∷ b)) then pop_back (line ∷ b) else line ∷ b

-- The loop over the reversed batch: the last line is pushed first.
unfoldable pub rebuffer : List Line → List Line → List Line
rebuffer [] b = b
rebuffer (line ∷ batch) b = push_front line (rebuffer batch b)

-- What is logged while the upload runs.
unfoldable pub log_all : List Line → List Line → List Line
log_all [] b = b
log_all (line ∷ lines) b = log_all lines (tlog line b)

-- One cycle: drain, upload, and put the batch back after a failure.
unfoldable pub cycle : Bool → List Line → List Line → List Line
cycle uploaded meanwhile b =
    let (batch, rest) = drain b in
    let later = log_all meanwhile rest in if uploaded then later else rebuffer batch later

-- One round of the loop with the configuration that was read: what is uploaded, and the buffer.
unfoldable pub telemetry_uploader :
    Crates → Option Config → Bool → List Line → List Line → Option (List Line) × List Line
telemetry_uploader w none uploaded meanwhile b = (none, b)
telemetry_uploader w (some cfg) uploaded meanwhile b =
    let batch = (drain b).0 in
    if not cfg.telemetry || (is_empty cfg.server_url || is_empty cfg.token)
    then (none, b)
    else elim (decode_pin w cfg.pin) [
      | none ↦ (none, b)
      | some pin ↦ if is_empty batch then (none, b) else (some batch, cycle uploaded meanwhile b)
    ]
