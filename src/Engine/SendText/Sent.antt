-- ===== src/Engine/SendText/Sent.antt =====
-- What a text command leaves behind.
use copysync.Prelude.{
  ℕ, suc, ◌+◌, ◌≡◌, refl, ◌⊎◌, inl, inr, Bool, true, false, not, ◌&&◌, ◌==◌, ap, if◌then◌else◌,
  Option, none, some, [], ◌∷◌, Text, codes, utf8, text_len, arith, Bool-cases, Option-cases,
}
use copysync.Prelude.Int.{ℤ, pos, negsuc, ltb_ℤ}
use copysync.World.{Crates, sha_hex}
use copysync.Privacy.{Sensitivity, label, classify}
use copysync.Protocol.{ClipEvent}
use copysync.Protocol.NewText.{new_text}
use copysync.History
use copysync.Engine.Dedup.{remember, seen}
use copysync.Engine.State.{
  emit_clip, out_sensitive, purge_after, Engine, Machine, ws_send, add_history, schedule_purge,
  entry,
}
use copysync.Engine.Trace.{frames}
use copysync.Engine.SendText.{
  text_sent, text_to_wire, text_within_limit, send_text_clip, withheld, filtered, local_text_arm,
}

pub frames-schedule_purge :
    (id : ℤ) (ttl : ℕ) (s : Engine) → frames (schedule_purge id ttl s).out ≡ frames s.out
unfolding schedule_purge frames
frames-schedule_purge (negsuc n) ttl s = refl
frames-schedule_purge (pos n) ttl s = ground arith

schedule_purge-rest :
    (id : ℤ) (ttl : ℕ) (s : Engine)
    → schedule_purge id ttl s ≡ record s { out = (schedule_purge id ttl s).out }
unfolding schedule_purge
schedule_purge-rest (negsuc n) ttl s = refl
schedule_purge-rest (pos n) ttl s = elim (Bool-cases (ttl == 0)) [
  | inl never ↦ rw (schedule_purge, never) refl
  | inr later ↦ rw (schedule_purge, later) refl
]

-- The purge of a row whose id is `n` if the history took it.
purge-out :
    (took : Bool) (n ttl : ℕ) (h k : History.History) (s : Engine)
    → let added : Option ℕ × History.History = if took then (some n, h) else (none, k) in
      (schedule_purge (elim added.0 [ none ↦ negsuc 0 | some i ↦ pos i ]) ttl s).out
      ≡ (if took && not (ttl == 0) then purge_after n ttl ∷ s.out else s.out)
unfolding schedule_purge
purge-out false n ttl h k s = refl
purge-out true n ttl h k s = elim (Bool-cases (ttl == 0)) [
  | inl never ↦ rw (schedule_purge, never) refl
  | inr later ↦ rw (schedule_purge, later) refl
]

module _ (w : Crates) (m : Machine) where
  frames-withheld :
      (text : Text) (reason : Sensitivity) (s : Engine)
      → frames (withheld w m text reason s).out ≡ frames s.out
  unfolding withheld frames add_history
  frames-withheld text reason s = frames-schedule_purge _ _ _

  -- The text is recorded here and will be purged, if its row has an id and there is a time to wait.
  abbrev pub Withheld : Text → Sensitivity → Engine → Engine → Type 0
  Withheld text reason s t =
      (t.hist
        ≡ (History.add w s.hist s.drawn (
            entry (w.stamp m.now) (codes "text") (codes "me") (codes "out") text
              (codes "text/plain") (text_len text) [] [])).1)
      × (t.out
          ≡ emit_clip (out_sensitive text (label reason))
            ∷ (if s.hist.writable && not (s.cfg.sensitive_ttl_secs == 0)
                then purge_after s.hist.next_id s.cfg.sensitive_ttl_secs ∷ s.out
                else s.out))

  withheld-Withheld :
      (text : Text) (reason : Sensitivity) (s : Engine)
      → Withheld text reason s (withheld w m text reason s)
  unfolding withheld add_history History.add
  withheld-Withheld text reason s = (
    ap (λ t. t.hist) (schedule_purge-rest _ _ _),
    ap (λ out. emit_clip (out_sensitive text (label reason)) ∷ out)
        (purge-out s.hist.writable s.hist.next_id s.cfg.sensitive_ttl_secs _ _ _),
  )

  recent-withheld :
      (text : Text) (reason : Sensitivity) (s : Engine)
      → (withheld w m text reason s).recent_text ≡ s.recent_text
  unfolding withheld add_history
  recent-withheld text reason s = ap (λ t. t.recent_text) (schedule_purge-rest _ _ _)

  -- While the privacy filter is on, a copied text that is classified as sensitive is not sent and
  -- its hash is not remembered. Nothing changes where the copy is an echo; otherwise the text is
  -- shown with its class and recorded here, to be purged after the time of the configuration, where
  -- that is not zero and the history takes the row.
  pub local_text_arm-sensitive :
      (text : Text) (html : Option Text) (reason : Sensitivity) (s : Engine)
      → s.exclude_sensitive ≡ true
      → classify w.is_alphanumeric text s.patterns ≡ some reason
      → let t = (local_text_arm w m text html s).1 in
        (frames t.out ≡ frames s.out)
        × (t.recent_text ≡ s.recent_text)
        × ((t ≡ s) ⊎ Withheld text reason s t)
  unfolding local_text_arm filtered
  local_text_arm-sensitive text html reason s on sensitive =
      let secret : filtered w m s text ≡ some reason = rw (filtered, on) sensitive in
      elim (Bool-cases (seen s.recent_text (sha_hex w (utf8 text)) m.now)) [
        | inl echo ↦ rw (local_text_arm, echo) (refl, refl, inl refl)
        | inr fresh ↦
            rw (local_text_arm, fresh, secret)
              (
                frames-withheld text reason s,
                recent-withheld text reason s,
                inr (withheld-Withheld text reason s),
              )
      ]

  -- Nothing went out and nothing was recorded.
  abbrev pub Unsent : Engine → Engine → Type 0
  Unsent s t = (frames t.out ≡ frames s.out) × (t.recent_text ≡ s.recent_text) × (t.hist ≡ s.hist)

  -- The frame does not encode, or the server's limit is below its length, or it fails to be sent.
  abbrev pub Hindered : ClipEvent → ℕ → Engine → Type 0
  Hindered ev i s =
      (m.frame_len ev ≡ none)
      ⊎ (((len : ℕ) × (m.frame_len ev ≡ some len)
            × ((ltb_ℤ (pos 0) s.max_msg && ltb_ℤ s.max_msg (pos len)) ≡ true))
          ⊎ (m.send_ok i ≡ false))

  -- The frame went out within the limit, and its hash and its history row are recorded; the row
  -- drew its nonces at `i`.
  abbrev pub SentOnce : ClipEvent → ℕ → Text → Engine → Engine → Type 0
  SentOnce ev i text s t =
      (len : ℕ) × (frames t.out ≡ ev ∷ frames s.out)
      × (m.frame_len ev ≡ some len)
      × ((ltb_ℤ (pos 0) s.max_msg && ltb_ℤ s.max_msg (pos len)) ≡ false)
      × (t.recent_text ≡ remember s.recent_text (sha_hex w (utf8 text)) m.now)
      × (t.hist
          ≡ (History.add w s.hist i (
              entry ev.ts (codes "text") (codes "me") (codes "out") text (codes "text/plain")
                (text_len text) [] [])).1)

  text_within_limit-sent :
      (ev : ClipEvent) (text : Text) (s : Engine)
      → let r = text_within_limit w m ev text s in
        (Unsent s r.1 × Hindered ev s.drawn s)
        ⊎ ((r.0 ≡ true) × SentOnce ev (suc s.drawn) text s r.1)
  unfolding text_within_limit text_to_wire text_sent ws_send add_history frames
  text_within_limit-sent ev text s = elim (Option-cases (m.frame_len ev)) [
    | inl none_len ↦ rw (text_within_limit, none_len) (inl ((refl, refl, refl), inl refl))
    | inr (len, some_len) ↦
        elim (Bool-cases (ltb_ℤ (pos 0) s.max_msg && ltb_ℤ s.max_msg (pos len))) [
          | inl over ↦
              rw (text_within_limit, some_len, over)
                (inl ((refl, refl, refl), inr (inl (len, refl, over))))
          | inr within ↦ elim (Bool-cases (m.send_ok s.drawn)) [
            | inl up ↦
                rw (text_within_limit, some_len, within, text_to_wire, ws_send, up)
                  (inr (refl, (len, refl, refl, within, refl, refl)))
            | inr down ↦
                rw (text_within_limit, some_len, within, text_to_wire, ws_send, down)
                  (inl ((refl, refl, refl), inr (inr refl)))
          ]
        ]
  ]

  -- The text is not sealed or not encoded, or its frame does not go out.
  abbrev pub Obstacle : Text → Option Text → Engine → Type 0
  Obstacle text html s =
      let event = new_text w s.drawn m.now (suc s.seq) text html s.key s.targets in
      (event ≡ none) ⊎ ((ev : ClipEvent) × (event ≡ some ev) × Hindered ev (s.drawn + 3) s)

  -- What a text command comes to.
  abbrev pub Outcome : Text → Option Text → Engine → Bool × Engine → Type 0
  Outcome text html s r =
      (Unsent s r.1 × Obstacle text html s)
      ⊎ ((r.0 ≡ true)
          × (ev : ClipEvent) × (new_text w s.drawn m.now (suc s.seq) text html s.key s.targets
              ≡ some ev)
          × SentOnce ev (suc (s.drawn + 3)) text s r.1)

  -- One text command: either nothing went out and neither its hash nor a history row was recorded,
  -- because the text could not be sealed, its frame does not encode or is longer than the limit of
  -- the server, or sending it failed; or exactly one frame went out, that of the text, no longer
  -- than the limit where there is one, its hash was remembered and its history row added. The
  -- connection is only given up in the first case.
  pub send_text_clip-Outcome :
      (text : Text) (html : Option Text) (s : Engine)
      → Outcome text html s (send_text_clip w m text html s)
  unfolding send_text_clip frames
  send_text_clip-Outcome text html s =
      elim (Option-cases (new_text w s.drawn m.now (suc s.seq) text html s.key s.targets)) [
        | inl no_event ↦ rw (send_text_clip, no_event) (inl ((refl, refl, refl), inl refl))
        | inr (ev, event) ↦
            rw (send_text_clip, event)
              (elim (text_within_limit-sent ev text
                (record s { seq = suc s.seq; drawn = s.drawn + 3 })) [
                  | inl (unsent, why) ↦ inl (unsent, inr (ev, refl, why))
                  | inr (up, sent) ↦ inr (up, ev, refl, sent)
                ])
      ]
