-- ===== src/Gui/App.antt =====
-- `App` of clients/desktop/gui/src/main.rs: its state, the requests that it makes, and the events
-- of the agent that it folds in. What the agent answers is an argument.
pub mod Blocked
pub mod Controls
pub mod Following
pub mod Frame
pub mod Log
use copysync.Prelude.{
  ℕ, suc, Bool, true, false, not, ◌&&◌, Option, none, some, List, [], ◌∷◌, ◌++◌, Text, codes,
  is_empty, length, ltb, if◌then◌else◌,
}
use copysync.Privacy.Chars.{trim}
use copysync.Ipc.{
  Status, HistRow, RosterDevice, FoundServer, Request, get_status, get_history, get_roster,
  Response, Failure, ClipInfo, Event,
}
use copysync.Gui.Labels.{reason_ko}
use copysync.Gui.Wallpaper.{BgImage, BgNote}

-- Why a request came to nothing: the agent refused, or did not answer, or not to the point.
pub data Trouble : Type 0 where
  refused : Failure → Trouble
  io_error : Text → Trouble
  unexpected : Trouble

-- `request`: a reply, or the error of the connection.
pub data Answer : Type 0 where
  replied : Response → Answer
  unreachable : Text → Answer

pub data Outcome {ℓ} (A : Type ℓ) : Type ℓ where
  ok : A → Outcome A
  err : Trouble → Outcome A

-- The lines of the log, by what they say.
pub data Note : Type 0 where
  status_updated gui_started pairing_succeeded quitting targets_changed text_sent : Note
  reconnect_requested no_hotkey_manager : Note
  roster_updated : ℕ → Note
  clip_blocked reconnecting error_reported cliplogged hotkey_registered hotkey_changed : Text → Note
  clip_seen notified : Text → Text → Note
  history_query_failed discovery_failed pairing_failed targets_failed send_failed : Trouble → Note
  reconnect_failed pool_failed : Trouble → Note
  pool_changed hotkey_unparsed hotkey_refused tray_failed : Text → Note
  exclude_set mark_set telemetry_set : Bool → Note
  auto_clear_set : ℕ → Note
  wallpaper : BgNote → Note

-- `pair_status`
pub data PairStatus : Type 0 where
  blank searching pairing paired : PairStatus
  servers_found : ℕ → PairStatus
  search_failed pair_failed : Trouble → PairStatus

pub data Tab : Type 0 where
  connect history settings debug : Tab

pub data ToastKind : Type 0 where
  blocked error : ToastKind

pub record Toast : Type 0 where
  pub kind : ToastKind
  pub reason : Text
  pub preview : Text
  pub spawned : ℕ

-- What the GUI does to its window and to the process.
pub data Action : Type 0 where
  shown hidden cancelled_close exited : Action

pub record App : Type 0 where
  pub status : Status
  pub history : List HistRow
  pub roster : List RosterDevice
  pub log : List (Text × Note)
  pub gui_log : List Note
  pub recording : Bool
  pub toasts : List Toast
  pub tab : Tab
  pub send_text : Text
  pub search_query : Text
  pub target_all : Bool
  pub selected_targets : List Text
  pub pair_status : PairStatus
  pub pair_rx : Bool
  pub privacy_filter : Bool
  pub mark_sensitive : Bool
  pub telemetry : Bool
  pub auto_clear_secs : ℕ
  pub discovered : List FoundServer
  pub discover_rx : Bool
  pub discovering : Bool
  pub tray : Bool
  pub hotkey_mgr : Bool
  pub hotkey_current : Option Text
  pub hotkey_input : Text
  pub bg : BgImage
  pub bootstrapped : Bool
  -- The requests made so far, and what was done to the window.
  pub requests : List Request
  pub asked : ℕ
  pub actions : List Action

-- What the agent answers to each request, by its number; the stamp of the log and the instant.
pub record Peer : Type 0 where
  pub answer : ℕ → Request → Answer
  pub stamp : Text
  pub now : ℕ

abbrev pub log_size : ℕ
log_size = 800

-- `while self.log.len() > 800 { self.log.pop_front(); }`
unfoldable pub pop_excess {ℓ} : {A : Type ℓ} → List A → List A
pop_excess [] = []
pop_excess (x ∷ xs) = if ltb log_size (length (x ∷ xs)) then pop_excess xs else x ∷ xs

abbrev pub act : Action → App → App
act a s = record s { actions = s.actions ++ a ∷ [] }

unfoldable pub adopt_status : Status → App → App
adopt_status st s = record s {
  privacy_filter = st.privacy_filter;
  mark_sensitive = st.mark_sensitive;
  telemetry = st.telemetry;
  auto_clear_secs = st.auto_clear_secs;
  status = st;
}

unfoldable pub request_ok : Answer → Outcome Response
request_ok (replied (Response.failed f)) = err (refused f)
request_ok (replied r) = ok r
request_ok (unreachable e) = err (io_error e)

module _ (p : Peer) where
  unfoldable pub logline : Bool → Note → App → App
  logline force note s = if not force && not s.recording then s else record s {
    gui_log = s.gui_log ++ note ∷ [];
    log = pop_excess (s.log ++ (p.stamp, note) ∷ []);
  }

  unfoldable pub request : Request → App → Answer × App
  request r s =
      (p.answer s.asked r, record s { requests = s.requests ++ r ∷ []; asked = suc s.asked })

  unfoldable pub take_history : Outcome Response → App → App
  take_history (ok (Response.history rows)) s = record s { history = rows }
  take_history (ok _) s = s
  take_history (err e) s = logline true (history_query_failed e) s

  unfoldable pub reload_history : App → App
  reload_history s =
      let q = trim s.search_query in
      let (a, s1) = request (get_history (if is_empty q then none else some q)) s in
      take_history (request_ok a) s1

  unfoldable pub take_status : Answer → App → App
  take_status (replied (Response.status st)) s = adopt_status st s
  take_status _ s = s

  unfoldable pub reload_status : App → App
  reload_status s = let (a, s1) = request get_status s in take_status a s1

  unfoldable pub take_roster : Answer → App → App
  take_roster (replied (Response.roster r)) s = record s { roster = r }
  take_roster _ s = s

  unfoldable pub reload_roster : App → App
  reload_roster s = let (a, s1) = request get_roster s in take_roster a s1

  abbrev pub is_history : Tab → Bool
  is_history history = true
  is_history _ = false

  abbrev toast : ToastKind → Text → Text → App → App
  toast kind reason preview s = record s {
    toasts =
        s.toasts
        ++ record { kind = kind; reason = reason; preview = preview; spawned = p.now } ∷ [];
  }

  -- The text of a clip, or else its name.
  abbrev pub preview_of : Option Text → Option Text → Text
  preview_of (some t) n = t
  preview_of none (some n) = n
  preview_of none none = []

  unfoldable pub on_clip : Option Text → ClipInfo → App → App
  on_clip (some reason) info s =
      toast blocked (reason_ko reason) (preview_of info.text info.name)
        (logline true (clip_blocked reason) s)
  on_clip none info s =
      let s1 = logline false (clip_seen info.direction info.kind) s in
      let s2 = reload_history s1 in if is_history s1.tab then s2 else s1

  unfoldable pub on_event : Event → App → App
  on_event (Event.status st) s = adopt_status st (logline false status_updated s)
  on_event (Event.roster r) s = record (logline false (roster_updated (length r)) s) { roster = r }
  on_event (Event.clip info) s = on_clip info.sensitive info s
  on_event (Event.reconnect i) s = logline true (reconnecting i) s
  on_event (Event.error message) s =
      toast error (codes "오류") message (logline true (error_reported message) s)
  on_event (Event.notify title body) s = logline false (notified title body) s
  on_event (Event.cliplog msg) s = logline false (cliplogged msg) s

  unfoldable pub pump_events : List Event → App → App
  pump_events [] s = s
  pump_events (e ∷ es) s = pump_events es (on_event e s)
