-- ===== src/Tests/Values.antt =====
-- An engine, a machine and the values that the examples share.
use copysync.Prelude.{Bool, true, false, none, some, [], ◌∷◌, ◌++◌, Text, Bytes, codes, replicate}
use copysync.Prelude.Int.{pos}
use copysync.Protocol.{HelloOk, Device, Presence, ClipEvent, to_all, default_event}
use copysync.Config.{Config}
use copysync.History.{History, Entry}
use copysync.Engine.Holds.{no_holds}
use copysync.Engine.State.{Status, out_image, Upload, Engine, Machine}

abbrev pub key : Bytes
key = b'k' ∷ []

abbrev pub kid : Text
kid = codes "kid"

abbrev pub config : Config
config = record {
  server_url = codes "https://host";
  server_name = codes "host";
  server_id = codes "s";
  device_id = codes "d";
  device_name = codes "desk";
  token = codes "t";
  pin = [];
  e2e_pass = codes "pass";
  exclude_sensitive = true;
  sensitive_ttl_secs = 30;
  custom_patterns = [];
  quick_panel_shortcut = [];
  auto_clear_secs = 0;
  mark_received_sensitive = false;
  telemetry = false;
}

abbrev pub table : History
table = record { rows = []; next_id = 1; key = none; writable = true }

abbrev pub engine_status : Status
engine_status = record {
  paired = true;
  connected = true;
  server_name = codes "host";
  device_name = codes "desk";
  server_id = codes "s";
  e2e = true;
  pool = [];
  pools = [];
  reconnecting = false;
}

-- An engine with a key, on a fresh connection that brokers files of more than one byte on demand.
abbrev pub engine : Engine
engine = record {
  cfg = config;
  key = some (key, kid);
  patterns = [];
  seq = 0;
  recent_text = [];
  recent_img = [];
  recent_files = [];
  holds = no_holds;
  pending = [];
  attempt = 0;
  last_recv = 0;
  threshold = pos 1;
  max_msg = pos 1000;
  hist = table;
  status = engine_status;
  roster = [];
  targets = to_all;
  exclude_sensitive = true;
  auto_clear_secs = 0;
  mark_sensitive = false;
  downloads = codes "/dl";
  data_dir = codes "/data";
  jobs = [];
  drawn = 0;
  out = [];
}

-- A machine on which everything works; every file holds two bytes.
abbrev pub machine : Machine
machine = record {
  now = 5000;
  send_ok = λ i. true;
  put_ok = λ i. true;
  frame_len = λ ev. some 100;
  encode_png = λ img. some img.rgba;
  decode_image = λ content. none;
  file_size = λ path. some 2;
  read_file = λ path. some (1 ∷ 2 ∷ []);
  cache_dir_ok = true;
  exists = λ path. false;
  write_ok = λ path. true;
}

abbrev pub upload : Upload
upload = record {
  ev = default_event;
  hist_kind = codes "file";
  hist_preview = codes "a";
  hist_mime = codes "text/plain";
  hist_size = 2;
  hist_name = codes "a";
  emit_json = out_image (codes "a") 2;
  err_via_error = false;
  echo_img_sha = none;
}

-- The event of the text "hi" under the key, with the draws from 0.
abbrev pub hi : ClipEvent
hi = record default_event {
  id = 0 ∷ [];
  seq = 1;
  ts = 9 ∷ [];
  mime = codes "text/plain" ∷ [];
  size = 2;
  inline_text = replicate 12 1 ++ 7 ∷ codes "hi";
  sha256 = replicate 64 b'1';
  enc = some (record { alg = codes "aes-256-gcm"; key_id = kid; nonce = [] });
}

abbrev pub device : Text → Device
device name = record {
  id = codes "p";
  name = name;
  platform = [];
  pool = [];
  created_at = [];
  last_seen_at = [];
  revoked = false;
}

abbrev pub presence : Text → Bool → Presence
presence name online = record { device = device name; online = online }

abbrev pub note : Entry
note = record {
  id = 0;
  ts = [];
  kind = codes "text";
  origin = codes "me";
  direction = codes "out";
  preview = codes "hi";
  mime = codes "text/plain";
  size = 2;
  blob_id = [];
  name = [];
}

-- The two bytes of a file under the key, with the first nonce.
abbrev pub cipher : Bytes
cipher = 0 ∷ 0 ∷ 0 ∷ 0 ∷ 0 ∷ 0 ∷ 0 ∷ 0 ∷ 0 ∷ 0 ∷ 0 ∷ 0 ∷ 7 ∷ 1 ∷ 2 ∷ []

abbrev pub greeting : HelloOk
greeting = record {
  server_id = codes "s";
  server_name = codes "host";
  e2e = true;
  you = device (codes "desk");
  roster = [];
  max_msg = pos 1000;
  blob_cap = pos 1000;
  on_demand_threshold = pos 1;
  pools = [];
  pool = [];
}
