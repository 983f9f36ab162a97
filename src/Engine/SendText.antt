-- ===== src/Engine/SendText.antt =====
-- `send_text_clip` of clients/desktop/core/src/engine.rs, and the arms of `Cmd::LocalText` and
-- `Cmd::SendText`. A handler that answers `false` ends the connection.
pub mod Sent
use copysync.Prelude.{
  ℕ, suc, ◌+◌, Bool, true, false, ◌&&◌, Option, none, some, List, [], ◌∷◌, Text, codes, utf8,
  text_len, if◌then◌else◌,
}
use copysync.Prelude.Int.{ℤ, pos, ltb_ℤ}
use copysync.World.{Crates, sha_hex}
use copysync.Privacy.{Sensitivity, label, classify}
use copysync.Protocol.{ClipEvent}
use copysync.Protocol.NewText.{new_text}
use copysync.Engine.Dedup.{remember, seen}
use copysync.Engine.State.{
  Engine, Machine, emit, emit_error, emit_clip, clip_frame, text_seal_failed, text_encode_failed,
  too_large, out_text, out_sensitive, ws_send, add_history, schedule_purge, entry,
}

module _ (w : Crates) (m : Machine) where
  -- After the frame has gone out: the hash, the history and the UI.
  unfoldable pub text_sent : ClipEvent → Text → Engine → Engine
  text_sent ev text s =
      let s1 = record s { recent_text = remember s.recent_text (sha_hex w (utf8 text)) m.now } in
      let (row, s2) =
        add_history w
          (entry ev.ts (codes "text") (codes "me") (codes "out") text (codes "text/plain")
            (text_len text) [] [])
          s1 in
      emit (emit_clip (out_text text)) s2

  unfoldable pub text_to_wire : ClipEvent → Text → Engine → Bool × Engine
  text_to_wire ev text s =
      let (sent, s') = ws_send m (clip_frame ev) s in
      if sent then (true, text_sent ev text s') else (false, s')

  -- The size test on the encoded frame.
  unfoldable pub text_within_limit : ClipEvent → Text → Engine → Bool × Engine
  text_within_limit ev text s = elim (m.frame_len ev) [
    | none ↦ (true, emit (emit_error text_encode_failed) s)
    | some len ↦
        if ltb_ℤ (pos 0) s.max_msg && ltb_ℤ s.max_msg (pos len)
        then (true, emit (emit_error (too_large s.max_msg len)) s)
        else text_to_wire ev text s
  ]

  unfoldable pub send_text_clip : Text → Option Text → Engine → Bool × Engine
  send_text_clip text html s =
      let s1 = record s { seq = suc s.seq; drawn = s.drawn + 3 } in
      elim (new_text w s.drawn m.now s1.seq text html s.key s.targets) [
        | none ↦ (true, emit (emit_error text_seal_failed) s1)
        | some ev ↦ text_within_limit ev text s1
      ]

  -- The privacy filter: recorded here and purged, not sent.
  unfoldable pub withheld : Text → Sensitivity → Engine → Engine
  withheld text reason s =
      let (id, s1) =
        add_history w
          (entry (w.stamp m.now) (codes "text") (codes "me") (codes "out") text (codes "text/plain")
            (text_len text) [] [])
          s in
      emit (emit_clip (out_sensitive text (label reason)))
        (schedule_purge id s.cfg.sensitive_ttl_secs s1)

  -- What the filter says of a text.
  unfoldable pub filtered : Engine → Text → Option Sensitivity
  filtered s text = if s.exclude_sensitive then classify w.is_alphanumeric text s.patterns else none

  -- `Cmd::LocalText { text, html }`
  unfoldable pub local_text_arm : Text → Option Text → Engine → Bool × Engine
  local_text_arm text html s =
      if seen s.recent_text (sha_hex w (utf8 text)) m.now
      then (true, s)
      else elim (filtered s text) [
        | some reason ↦ (true, withheld text reason s)
        | none ↦ send_text_clip text html s
      ]

  -- `Cmd::SendText(t)`
  unfoldable pub send_text_arm : Text → Engine → Bool × Engine
  send_text_arm text s = send_text_clip text none s
