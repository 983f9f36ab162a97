-- ===== src/Tests/Clips.antt =====
-- The clips of text: sent, received, filtered, and a run of the engine.
use copysync.Prelude.{
  ◌⊎◌, ◌≡◌, refl, inl, true, none, some, [], codes, utf8, text_len, contains, text_eq, arith, false,
  List, ◌∷◌, Bytes, replicate, ◌+◌, ◌≤◌, length, all, any,
}
use copysync.World.{sha_hex, toy, toy-Laws}
use copysync.Privacy.Chars.{trim, is_whitespace, byte_prefix, to_ascii_lowercase}
use copysync.Privacy.{classify, has_private_key, is_otp_auth, otp_auth}
use copysync.Protocol.{to_all}
use copysync.Protocol.NewText.{new_text, sealed_html, text_base}
use copysync.Privacy.Card.{is_card_number, is_card_char}
use copysync.Privacy.Password.{is_password_like}
use copysync.Engine.Command.{send_text}
use copysync.Engine.Dedup.Ring.{no-IsRing}
use copysync.Engine.Trace.{frames}
use copysync.Engine.SendText.{send_text_clip, local_text_arm}
use copysync.Engine.SendText.Sent.{
  Withheld, Outcome, send_text_clip-Outcome, local_text_arm-sensitive,
}
use copysync.Engine.Incoming.{handle_incoming_text, apply_text}
use copysync.Engine.Incoming.Delivery.{handle_incoming_text-new_text}
use copysync.Engine.Incoming.Echo.{local_text_arm-apply_text}
use copysync.Engine.Actor.{cmd}
use copysync.Engine.Run.Sealed.{Confidential}
use copysync.Engine.Run.Bounds.{IsBounded}
use copysync.Config.{Config, e2e_key}
use copysync.Engine.Run.Whole.{EngineState, Turn, dial, event, host_gone, run_engine, loop}
use copysync.Engine.Run.Whole.Waits.{Waits, lost, refused_dials, loop-Waits}
use copysync.Engine.Run.Whole.Reached.{run_engine-Confidential, run_engine-IsBounded}
use copysync.Engine.Dedup.{remember, has_entry, ring_size}
use copysync.Engine.State.{Engine, put, schedule_clear_text, add_history}
use copysync.Engine.Incoming.{purge_secret}
use copysync.Tests.Values.{config, table, engine_status, greeting, key, kid, engine, machine, hi}
use copysync.E2e.{seal}
use copysync.E2e.{derive_key, key_id}

-- A pin of 32 bytes, a dial, and a connection on which a text is sent.
abbrev pinned : Config
pinned = record config { pin = replicate 32 b'p' }

abbrev host : EngineState
host = record {
  hist = table;
  status = engine_status;
  roster = [];
  targets = to_all;
  exclude_sensitive = true;
  auto_clear_secs = 0;
  mark_sensitive = false;
  downloads = codes "/dl";
  data_dir = codes "/data";
}

abbrev turns : List Turn
turns = dial machine greeting ∷ event machine 0 (cmd (send_text (codes "hi"))) ∷ host_gone ∷ []

abbrev pass_key : Bytes
pass_key = derive_key toy pinned.e2e_pass pinned.server_id

pinned-key : e2e_key toy pinned ≡ some (pass_key, key_id toy pass_key)
unfolding e2e_key
pinned-key = refl

run_engine-Confidential_example :
    Confidential toy pass_key
      (key_id toy pass_key)
      (run_engine toy (λ p. none) pinned host turns).0.1
run_engine-Confidential_example =
    run_engine-Confidential toy (λ p. none) pinned host pass_key (key_id toy pass_key) turns
      pinned-key

-- Two characters of ASCII.
hi-event : new_text toy 0 9 1 (codes "hi") none (some (key, kid)) to_all ≡ some hi
unfolding new_text seal sealed_html text_base utf8 sha_hex text_len
hi-event = refl

handle_incoming_text-new_text_example :
    handle_incoming_text toy machine hi engine ≡ apply_text toy machine hi (codes "hi") none engine
handle_incoming_text-new_text_example =
    handle_incoming_text-new_text toy toy-Laws machine 0 9 1 (codes "hi") none (some (key, kid))
      to_all hi engine (inl (omega arith), (inl (omega arith), tt)) tt refl hi-event

-- The engine once the text has been applied and another one remembered.
abbrev applied : Engine
applied = apply_text toy machine hi (codes "hi") none engine

abbrev and_another : Engine
and_another = record applied { recent_text = remember applied.recent_text [] 5001 }

room-applied : length applied.recent_text + 1 ≤ ring_size
unfolding apply_text put schedule_clear_text remember has_entry add_history purge_secret classify
    trim is_whitespace has_private_key contains is_otp_auth byte_prefix text_eq to_ascii_lowercase
    is_card_number all is_card_char any is_password_like
room-applied = omega arith

hi-other : has_entry (sha_hex toy (utf8 (codes "hi"))) (([], 5001) ∷ []) ≡ false
unfolding has_entry sha_hex utf8 text_eq
hi-other = refl

local_text_arm-apply_text_example :
    local_text_arm toy machine (codes "hi") none and_another ≡ (true, and_another)
local_text_arm-apply_text_example =
    local_text_arm-apply_text toy machine machine hi (codes "hi") none none engine and_another
      (([], 5001) ∷ []) no-IsRing (omega arith) refl hi-other room-applied

send_text_clip-Outcome_example :
    Outcome toy machine
      (codes "hi")
      none
      engine
      (send_text_clip toy machine (codes "hi") none engine)
send_text_clip-Outcome_example = send_text_clip-Outcome toy machine (codes "hi") none engine

pub otp-class : classify toy.is_alphanumeric (codes "otpauth://totp/a") [] ≡ some otp_auth
unfolding classify trim is_whitespace has_private_key contains is_otp_auth byte_prefix text_eq
    to_ascii_lowercase
otp-class = refl

local_text_arm-sensitive_example :
    let t = (local_text_arm toy machine (codes "otpauth://totp/a") none engine).1 in
    (frames t.out ≡ frames engine.out)
    × (t.recent_text ≡ engine.recent_text)
    × ((t ≡ engine) ⊎ Withheld toy machine (codes "otpauth://totp/a") otp_auth engine t)
local_text_arm-sensitive_example =
    local_text_arm-sensitive toy machine (codes "otpauth://totp/a") none otp_auth engine refl
      otp-class

run_engine-IsBounded_example : IsBounded (run_engine toy (λ p. none) pinned host turns).0.1
run_engine-IsBounded_example = run_engine-IsBounded toy (λ p. none) pinned host turns

loop-Waits_example :
    Waits 3
      (loop toy
        (lost machine 500 true ∷ refused_dials ((machine, 700) ∷ (machine, 0) ∷ []))
        (true, engine)).0.1
loop-Waits_example =
    loop-Waits toy ((machine, 700) ∷ (machine, 0) ∷ []) machine 500 true engine refl
