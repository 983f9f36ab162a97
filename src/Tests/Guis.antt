-- ===== src/Tests/Guis.antt =====
-- The supervisor of the agent, and the GUI beside the agent.
use copysync.Prelude.{
  ◌≤◌, ◌≡◌, ◌≢◌, refl, ◌⊎◌, inr, true, false, none, some, List, [], ◌∷◌, ◌++◌, codes, length, all,
  ltb, suc, ◌-◌, arith, text_eq,
}
use copysync.World.{toy}
use copysync.Privacy.{otp_auth, label}
use copysync.Privacy.Chars.{is_whitespace, trim}
use copysync.Protocol.Json.{num, as_num}
use copysync.Engine.State.{Effect, emit_clip}
use copysync.Engine.SendText.{local_text_arm}
use copysync.Engine.Roster.{RosterDevice}
use copysync.Ipc.{Event, done}
use copysync.Agent.Requests.{status_snapshot, roster_to_ipc}
use copysync.Agent.Emitter.{payload, Callback, callback}
use copysync.Agent.Supervisor.{
  running, Supervisor, Host, fresh_channel, actor_returns, actor_panics, backoff_over, run_host,
}
use copysync.Agent.Supervisor.Lifecycle.{
  accepts, IsSupervised, crashes, attempts, run_host-IsSupervised, run_host-crashes,
}
use copysync.Gui.Prefs.{Floats, Prefs, dark, load_prefs, save_prefs}
use copysync.Gui.Prefs.RoundTrip.{load_prefs-save_prefs}
use copysync.Gui.Labels.{reason_ko}
use copysync.Gui.Wallpaper.{BgImage, undecodable}
use copysync.Gui.App.{App, Outcome, Peer, replied, connect, blank, on_event}
use copysync.Gui.App.Blocked.{blocked_toast, local_text_arm-blocked}
use copysync.Gui.App.Controls.Recipients.{Click, on_click, serve, InStep}
use copysync.Gui.App.Controls.InStep.{click-InStep, answered}
use copysync.Gui.App.Frame.{Inputs, tray_quit, nothing_yet, got, update}
use copysync.Gui.App.Log.{IsLogged, update-IsLogged}
use copysync.Gui.App.Following.{Link, Move, called, overflow, moves}
use copysync.Gui.App.Following.Roster.{IsFollowing}
use copysync.Gui.App.Following.CaughtUp.{rest, moves-roster}
use copysync.Tests.Values.{config, engine, machine}
use copysync.Tests.Agents.{agent, answers}
use copysync.Tests.Clips.{otp-class}

abbrev supervisor : Supervisor
supervisor = record { cfg = config; attempt = 0; phase = running }

-- One actor runs.
abbrev host : Host
host = record {
  agent = record agent { cmd_tx = fresh_channel; running = some config };
  join = some supervisor;
  actors = 1;
  events = [];
}

run_host-IsSupervised_example :
    IsSupervised (run_host answers (actor_panics 7 ∷ backoff_over ∷ actor_returns ∷ []) host)
run_host-IsSupervised_example =
    run_host-IsSupervised answers (actor_panics 7 ∷ backoff_over ∷ actor_returns ∷ []) host
      (refl, refl, refl)

run_host-crashes_example :
    let t = run_host answers (crashes (7 ∷ 8 ∷ [])) host in
    (t.actors ≡ 1)
    × (accepts t.agent.cmd_tx ≡ true)
    × (t.agent.running ≡ some config)
    × (t.join ≡ some (record { cfg = config; attempt = attempts (7 ∷ 8 ∷ []) 0; phase = running }))
run_host-crashes_example =
    run_host-crashes answers (7 ∷ 8 ∷ []) supervisor host (refl, refl, refl) refl refl

-- Floats that are whole numbers.
abbrev floats : Floats
floats = record {
  to_json = num;
  as_f32 = as_num;
  is_finite = λ x. true;
  lit = λ n. n;
  clamp = λ x lo hi. x;
  mul = λ x y. y;
  round = λ x. x;
}

abbrev prefs : Prefs
prefs = record {
  theme = dark;
  hotkey = codes "Alt+V";
  bg_path = codes "/wall.png";
  bg_zoom = 2;
  bg_brightness = 1;
  bg_blur = 3;
  card_opacity = 1;
  accent_rgb = some 255;
  fg_rgb = none;
}

load_prefs-save_prefs_example : load_prefs floats (some (some (save_prefs floats prefs))) ≡ prefs
unfolding as_num trim is_whitespace text_eq
load_prefs-save_prefs_example =
    load_prefs-save_prefs floats prefs (λ x finite. refl) refl refl refl refl refl (omega arith) tt

-- A wallpaper that has not been built yet.
abbrev wall : BgImage
wall = record {
  path = codes "/wall.png";
  zoom = 1;
  brightness = 1;
  blur = 0;
  card_opacity = 1;
  texture = none;
  built_from = none;
}

-- The GUI of the agent above, and an agent that answers every request with `Ok`.
abbrev app : App
app = record {
  status = status_snapshot agent;
  history = [];
  roster = [];
  log = [];
  gui_log = [];
  recording = true;
  toasts = [];
  tab = connect;
  send_text = codes "hi";
  search_query = [];
  target_all = true;
  selected_targets = [];
  pair_status = blank;
  pair_rx = false;
  privacy_filter = true;
  mark_sensitive = false;
  telemetry = false;
  auto_clear_secs = 0;
  discovered = [];
  discover_rx = false;
  discovering = false;
  tray = true;
  hotkey_mgr = true;
  hotkey_current = none;
  hotkey_input = [];
  bg = wall;
  bootstrapped = false;
  requests = [];
  asked = 0;
  actions = [];
}

abbrev peer : Peer
peer = record { answer = λ i r. replied done; stamp = codes "12:00"; now = 6000 }

abbrev phone : RosterDevice
phone = record { id = codes "p"; name = codes "phone"; online = true }

-- The roster of the agent changes while the GUI is behind, and the oldest event is lost.
abbrev changes : List Move
changes =
    called answers (Callback.roster (phone ∷ []))
    ∷ called answers (Callback.notify [] [])
    ∷ overflow 0
    ∷ []

abbrev link : Link
link = record { agent = agent; queue = []; dropped = false; app = app }

link-IsFollowing : IsFollowing link
unfolding roster_to_ipc
link-IsFollowing = (inr refl, refl)

moves-roster_example :
    let t = moves toy peer changes link in
    let u = moves toy peer (rest answers t) t in
    (u.queue ≡ [])
    × (u.agent ≡ t.agent)
    × (u.app.roster ≡ roster_to_ipc t.agent.roster)
    × (length (rest answers t) ≤ suc (length t.queue))
moves-roster_example = moves-roster toy peer answers changes link link-IsFollowing

click-InStep_example :
    let t = on_click peer (Click.device true (codes "p")) (answered app) in
    InStep t (serve toy answers t.requests agent)
click-InStep_example =
    click-InStep toy peer answers (Click.device true (codes "p")) app agent
      (refl, refl, refl, refl, refl)

abbrev inputs : Inputs
inputs = record {
  decoded = undecodable [];
  tray_fails = none;
  shell = tray_quit ∷ [];
  close_requested = true;
  events = Event.error (codes "late") ∷ [];
  discovery = got (Outcome.ok []);
  pairing = nothing_yet;
}

update-IsLogged_example :
    IsLogged (update peer floats inputs app)
    × (all (λ t. ltb (peer.now - t.spawned) 5000) (update peer floats inputs app).toasts ≡ true)
update-IsLogged_example = update-IsLogged peer floats inputs app (omega arith)

local_text_arm-blocked_example :
    let t = (local_text_arm toy machine (codes "otpauth://totp/a") none engine).1 in
    (t ≡ engine)
    ⊎ ((c : _) × (out : List Effect) × (t.out ≡ emit_clip c ∷ out)
        × (let g = on_event peer (callback answers (Callback.clip (payload c)) agent).0 app in
            (g.toasts ≡ app.toasts ++ blocked_toast peer (codes "otpauth://totp/a") otp_auth ∷ [])
            × (g.requests ≡ app.requests))
        × (reason_ko (label otp_auth) ≢ label otp_auth))
local_text_arm-blocked_example =
    local_text_arm-blocked toy machine peer answers (codes "otpauth://totp/a") none otp_auth engine
      agent app refl otp-class
