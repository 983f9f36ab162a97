-- ===== src/Lib.antt =====
-- The desktop client of copysync (clients/desktop/core/src, the agent around it with its GUI, and
-- the Tauri shell), which keeps the clipboards of paired devices in step through a server. The
-- engine (engine.rs) is one actor that owns a WebSocket: commands of the clipboard watcher and the
-- UI come in, clips go out as frames; frames of the server come in and are applied to the
-- clipboard. Blobs travel beside it over HTTP, in tasks whose results come back to the actor. With
-- a passphrase, clips are sealed end to end.
--
-- - Prelude (Lists, Texts, Sets, Int, Utf8, Tests): texts as lists of code points, bytes as lists
--   of numbers, UTF-8, from_utf8_lossy, and the lemmas that the parts share.
-- - World: the crates that the code calls, as parameters, with what their documentation says of
--   them (`Laws`), and a toy instance that shows that it can hold.
-- - Privacy: privacy.rs. Password has the entropy test of shannon_bits_per_char as an exact
--   comparison over the integers, Card the Luhn test.
-- - Protocol: protocol.rs, the wire types. NewText is ClipEvent::new_text, TargetsJson the serde
--   code of Targets.
-- - E2e: e2e.rs. History: history.rs, with the SQLite table as a list of rows. Blob: blob.rs, and
--   classify_blob_err of engine.rs. Config: e2e_key of config.rs and decode_pin of pinning.rs.
-- - Ws: ws.rs with encode and decode of lib.rs, over the messages of tungstenite. Pairing: claim
--   of pairing.rs with the pin check of pinning.rs. Discovery: discover of discovery.rs.
--   Clipboard: clipboard.rs; the retries and the parser of the virtual file names, and in Access
--   the reads and writes.
-- - Engine.Dedup, Holds, Roster, Backoff, Paths, Watcher: the parts of engine.rs that keep their
--   own data: remember and seen, hold_on_demand, apply_presence, backoff_delay, the names of files
--   (with the path semantics of Unix), poll_once. Watcher/Drivers is clipboard_loop and
--   clipboard_poll_loop, over lists of what ends their waits.
-- - Engine.State: the state of run and of EngineState as one record, explicitly passed. `out` is
--   the trace of what the engine did, newest first; `jobs` are the tasks in flight. What the
--   operating system, the socket and the clipboard answer is a `Machine`; answers that may change
--   within one event are asked for by the number of the draw (`drawn`), and so are nonces and ids.
-- - Engine.SendText, Uploads, Incoming, Frames: send_text_clip, spawn_image_clip and
--   send_file_clip, handle_incoming_text and apply_blob, handle_frame; each with every branch.
--   Incoming/Stored looks at where a blob is written, Incoming/Echo at the report of a text that
--   has just been applied. Uploads/FileHash is file_sha_hex, for whose result the others take the
--   hash of the content.
-- - Engine.Actor: the arms of the select loop of run, and the start and the end of a connection.
--   Engine.Run: the loops as a step relation, where the result of any task may come next;
--   Run/Whole is run itself, from its configuration on and over a list of what happens next, and
--   Run/Delivered follows a clip whose upload is done; Run/Whole/Waits counts the failed dials.
--   Engine.EndToEnd: two engines, one of which sends to the other.
-- - Ipc: the vocabulary of clients/desktop/ipc/src/lib.rs. Agent:
--   clients/desktop/agent/src/main.rs; Telemetry is the buffer of tlog and telemetry_uploader,
--   Requests is handle_request, send_cmd, save of the settings, and process_line; Emitter is
--   BroadcastEmitter with clip_to_info, and the JSON that engine.rs hands to it; Connection is
--   handle_conn; Supervisor is Engine::start with the loop that restarts the actor, as a run of
--   the events that it waits for; Startup is history_key and build_engine; CommandLine is main
--   with client_send and client_watch.
-- - Gui: clients/desktop/gui/src/main.rs. Prefs is load_prefs and save_prefs over the JSON of
--   Protocol/Json, with floats as bits; Wallpaper the cache of BgImage and refresh_wallpaper;
--   Labels the small helpers. App is the state of the window with its requests, which take the
--   answers of the agent from a `Peer`, and pump_events; App/Controls is what the clicks do;
--   App/Frame is update without the drawing; App/Following is subscribe_stream beside handle_conn,
--   over a broadcast channel whose events come in order and of which the oldest may be dropped,
--   which the next receive tells, as the documentation of tokio says. Launch is the start:
--   ensure_agent, event_loop and the choice of a renderer in main.
-- - Shell: clients/desktop/src-tauri/src/main.rs, the other host of the engine: the commands of
--   its web view, the shortcut of its quick panel and the menu of its tray. Shell.Supervisor is
--   start_sync with its task, TauriEmitter and setup, as a run of what may happen, with what the
--   actor does to the file when it is sent a new token.
-- - Tests: the theorems at concrete inputs; Privacy/Tests runs the unit tests of privacy.rs.
--
-- Loops are structural recursion on lists; the fuel in trim_start_matches is the length of the
-- text, of which each round takes a part, and that of the wait for the agent is 21, which its
-- sleeps of 150 ms in three seconds leave enough; that of file_sha_hex is one more than the length
-- of the file, of which each read but the last takes a byte or more. Counters that do not wrap in
-- the code are unbounded; the attempt counter saturates at 2^32 - 1. Instants are milliseconds.
--
-- Not modelled: paths of Windows, redirects that the HTTP client follows by itself, what a token
-- rotation does to the file of the agent (it is that of the shell), log files, the network and TLS
-- themselves, the derived code of serde, the calls of the operating system for the clipboard,
-- reading and writing the file of the configuration, the sleeping of timers (a purge or a clearing
-- that is due is an effect of the trace), the JSON of the lines between agent and GUI, the drawing
-- of the GUI and decode_wallpaper, the windows of the Tauri shell, and the server and the Android
-- client, which are in other languages.
pub mod Prelude
pub mod World
pub mod Protocol
pub mod Privacy
pub mod E2e
pub mod History
pub mod Blob
pub mod Config
pub mod Ws
pub mod Pairing
pub mod Discovery
pub mod Clipboard
pub mod Engine
pub mod Ipc
pub mod Agent
pub mod Tests
pub mod Gui
pub mod Shell
