-- ===== src/Gui/App/Blocked.antt =====
-- A copied secret on its way from the engine to the GUI, by way of the agent.
use copysync.Prelude.{
  ◌≡◌, ◌≢◌, refl, ap, ◌⊎◌, inl, inr, true, Option, some, List, [], ◌∷◌, ◌++◌, Text, Bool-cases, not,
  ◌&&◌, text_eq, arith,
}
use copysync.World.{Crates}
use copysync.Privacy.{
  private_key, otp_auth, credit_card, password_like, custom, Sensitivity, label, classify,
}
use copysync.Engine.State.{ClipInfo, Effect, Engine, Machine, emit_clip, out_sensitive}
use copysync.Engine.SendText.{local_text_arm}
use copysync.Engine.SendText.Sent.{local_text_arm-sensitive}
use copysync.Agent.Requests.{Agent, Answers}
use copysync.Agent.Emitter.{payload, clip_to_info, Callback, callback}
use copysync.Gui.Labels.{reason_ko}
use copysync.Gui.App.{App, Peer, Note, Toast, blocked, logline, on_clip, on_event}

-- What the GUI shows for a withheld text.
abbrev pub blocked_toast : Peer → Text → Sensitivity → Toast
blocked_toast p text reason = record {
  kind = blocked;
  reason = reason_ko (label reason);
  preview = text;
  spawned = p.now;
}

module _ (p : Peer) where
  toasts-logline : (force : _) (n : Note) (s : App) → (logline p force n s).toasts ≡ s.toasts
  unfolding logline
  toasts-logline force n s = elim (Bool-cases (not force && not s.recording)) [
    | inl quiet ↦ rw (logline, quiet) refl
    | inr loud ↦ rw (logline, loud) refl
  ]

  requests-logline : (force : _) (n : Note) (s : App) → (logline p force n s).requests ≡ s.requests
  unfolding logline
  requests-logline force n s = elim (Bool-cases (not force && not s.recording)) [
    | inl quiet ↦ rw (logline, quiet) refl
    | inr loud ↦ rw (logline, loud) refl
  ]

  shown :
      (o : Answers) (text : Text) (reason : Sensitivity) (a : Agent) (s : App)
      → let t =
          on_event p
            (callback o (Callback.clip (payload (out_sensitive text (label reason)))) a).0
            s in
        (t.toasts ≡ s.toasts ++ blocked_toast p text reason ∷ []) × (t.requests ≡ s.requests)
  unfolding callback payload clip_to_info on_event on_clip text_eq
  shown o text reason a s = (
    ap (λ l. l ++ blocked_toast p text reason ∷ []) (toasts-logline true _ s),
    requests-logline true _ s,
  )

worded : (r : Sensitivity) → reason_ko (label r) ≢ label r
unfolding reason_ko label text_eq
worded private_key = ground arith
worded otp_auth = ground arith
worded credit_card = ground arith
worded password_like = ground arith
worded custom = ground arith

-- A copied text that is classified as sensitive, while the filter is on, changes nothing if it is
-- an echo. Otherwise the last thing that the engine does is to hand a clip to its UI, and the GUI
-- of a client of the agent then shows a toast with that text and a Korean name for its class, and
-- does not ask for the history.
pub local_text_arm-blocked :
    (w : Crates) (m : Machine) (p : Peer) (o : Answers) (text : Text) (html : Option Text)
    (reason : Sensitivity) (e : Engine) (a : Agent) (s : App)
    → e.exclude_sensitive ≡ true
    → classify w.is_alphanumeric text e.patterns ≡ some reason
    → let t = (local_text_arm w m text html e).1 in
      (t ≡ e)
      ⊎ ((c : ClipInfo) × (out : List Effect) × (t.out ≡ emit_clip c ∷ out)
          × (let g = on_event p (callback o (Callback.clip (payload c)) a).0 s in
              (g.toasts ≡ s.toasts ++ blocked_toast p text reason ∷ []) × (g.requests ≡ s.requests))
          × (reason_ko (label reason) ≢ label reason))
local_text_arm-blocked w m p o text html reason e a s on sensitive =
    elim (local_text_arm-sensitive w m text html reason e on sensitive).2 [
      | inl same ↦ inl same
      | inr (hist, out) ↦
          inr (out_sensitive text (label reason), _, out, shown p o text reason a s, worded reason)
    ]
