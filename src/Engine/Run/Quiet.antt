-- ===== src/Engine/Run/Quiet.antt =====
-- The operations that neither send a clip nor hold, stash or transfer anything.
use copysync.Prelude.{
  ℕ, ◌≡◌, refl, ◌∙◌, ◌⊎◌, inl, inr, Bool, true, false, Option, none, some, List, [], ◌∷◌, Text,
  Bytes, codes, utf8, text_len, ◌==◌, Bool-cases, Option-cases,
}
use copysync.Prelude.Int.{ℤ, pos, negsuc}
use copysync.World.{Crates, sha_hex}
use copysync.Engine.Dedup.{remember}
use copysync.Privacy.{Sensitivity, classify}
use copysync.Protocol.{ClipEvent, is_image}
use copysync.Engine.State.{
  Engine, Machine, Effect, Notice, Upload, put, put_image, put_files, text_not_applied,
  image_not_applied, file_not_applied, add_history, schedule_purge, schedule_clear_text, entry,
}
use copysync.Engine.Trace.{frames}
use copysync.Engine.SendText.{withheld}
use copysync.Engine.Incoming.{
  Refusal, as_error, as_notification, show_refusal, Opened, opened, refused, put_of, incoming_text,
  incoming_blob, purge_secret, apply_text, handle_incoming_text, apply_image, apply_file,
  apply_content, apply_blob,
}
use copysync.Engine.Actor.{remember_image, advertised}

abbrev pub Quiet : Engine → Engine → Type 0
Quiet s t =
    (t.key ≡ s.key)
    × (frames t.out ≡ frames s.out)
    × (t.pending ≡ s.pending)
    × (t.holds ≡ s.holds)
    × (t.jobs ≡ s.jobs)

pub Quiet-refl : (s : Engine) → Quiet s s
Quiet-refl s = (refl, refl, refl, refl, refl)

pub Quiet-trans : (s t u : Engine) → Quiet s t → Quiet t u → Quiet s u
Quiet-trans s t u p q = (q.0 ∙ p.0, q.1 ∙ p.1, q.2 ∙ p.2, q.3 ∙ p.3, q.4 ∙ p.4)

-- An effect that is not a clip.
abbrev IsQuiet : Effect → Type 0
IsQuiet e = (out : List Effect) → frames (e ∷ out) ≡ frames out

put-Quiet : (m : Machine) (e : Effect) (n : Notice) (s : Engine) → IsQuiet e → Quiet s (put m e n s)
unfolding put frames
put-Quiet m e n s quiet = elim (Bool-cases (m.put_ok s.drawn)) [
  | inl taken ↦ rw (put, taken) (refl, quiet s.out, refl, refl, refl)
  | inr not_taken ↦ rw (put, not_taken) (Quiet-refl s)
]

put_of-IsQuiet : (html : Option Text) (mark : Bool) (t : Text) → IsQuiet (put_of html mark t)
unfolding put_of frames
put_of-IsQuiet (some h) mark t out = refl
put_of-IsQuiet none true t out = refl
put_of-IsQuiet none false t out = refl

schedule_clear_text-Quiet :
    (t : Text) (secs : ℕ) (s : Engine) → Quiet s (schedule_clear_text t secs s)
unfolding schedule_clear_text frames
schedule_clear_text-Quiet t secs s = elim (Bool-cases (secs == 0)) [
  | inl never ↦ rw (schedule_clear_text, never) (Quiet-refl s)
  | inr later ↦ rw (schedule_clear_text, later) (Quiet-refl s)
]

schedule_purge-Quiet : (id : ℤ) (ttl : ℕ) (s : Engine) → Quiet s (schedule_purge id ttl s)
unfolding schedule_purge frames
schedule_purge-Quiet (negsuc n) ttl s = Quiet-refl s
schedule_purge-Quiet (pos n) ttl s = elim (Bool-cases (ttl == 0)) [
  | inl never ↦ rw (schedule_purge, never) (Quiet-refl s)
  | inr later ↦ rw (schedule_purge, later) (Quiet-refl s)
]

show_refusal-Quiet : (shown : Refusal) (s : Engine) → Quiet s (show_refusal shown s)
unfolding show_refusal frames
show_refusal-Quiet (as_error n) s = Quiet-refl s
show_refusal-Quiet (as_notification n) s = Quiet-refl s

pub Opened-cases {ℓ} :
    {A : Type ℓ} (o : Opened A)
    → ((shown : Refusal) × (o ≡ refused shown)) ⊎ ((a : A) × (o ≡ opened a))
Opened-cases (opened a) = inr (a, refl)
Opened-cases (refused shown) = inl (shown, refl)

module _ (w : Crates) where
  purge_secret-Quiet : (t : Text) (row : ℤ) (s : Engine) → Quiet s (purge_secret w t row s)
  unfolding purge_secret
  purge_secret-Quiet t row s = elim (Option-cases (classify w.is_alphanumeric t [])) [
    | inl harmless ↦ rw (purge_secret, harmless) (Quiet-refl s)
    | inr (reason, secret) ↦ rw (purge_secret, secret) (schedule_purge-Quiet row _ s)
  ]

  module _ (m : Machine) where
    pub withheld-Quiet : (t : Text) (r : Sensitivity) (s : Engine) → Quiet s (withheld w m t r s)
    unfolding withheld add_history frames
    withheld-Quiet t r s = schedule_purge-Quiet _ _ _

    apply_text-Quiet :
        (ev : ClipEvent) (t : Text) (html : Option Text) (s : Engine)
        → Quiet s (apply_text w m ev t html s)
    unfolding apply_text add_history frames
    apply_text-Quiet ev t html s =
        let s1 = record s { recent_text = remember s.recent_text (sha_hex w (utf8 t)) m.now } in
        let s2 = put m (put_of html s.mark_sensitive t) text_not_applied s1 in
        let s3 = schedule_clear_text t s2.auto_clear_secs s2 in
        let (row, s4) =
          add_history w
            (entry ev.ts (codes "text") ev.origin_device (codes "in") t (codes "text/plain")
              (text_len t) [] [])
            s3 in
        Quiet-trans s1 s2 (purge_secret w t row s4)
          (put-Quiet m _ text_not_applied s1 (put_of-IsQuiet html s.mark_sensitive t))
          (Quiet-trans s2 s3 (purge_secret w t row s4) (schedule_clear_text-Quiet t _ s2)
            (purge_secret-Quiet t row s4))

    pub handle_incoming_text-Quiet :
        (ev : ClipEvent) (s : Engine) → Quiet s (handle_incoming_text w m ev s)
    unfolding handle_incoming_text
    handle_incoming_text-Quiet ev s =
        elim (Opened-cases (incoming_text w ev.inline_text ev.enc s.key)) [
          | inl (shown, not_opened) ↦
              rw (handle_incoming_text, not_opened) (show_refusal-Quiet shown s)
          | inr (text, got) ↦ rw (handle_incoming_text, got) (apply_text-Quiet ev text _ s)
        ]

    apply_image-Quiet : (content : Bytes) (s : Engine) → Quiet s (apply_image w m content s)
    unfolding apply_image frames
    apply_image-Quiet content s = elim (Option-cases (m.decode_image content)) [
      | inl bad ↦ rw (apply_image, bad) (Quiet-refl s)
      | inr (img, good) ↦
          rw (apply_image, good) (put-Quiet m (put_image img) image_not_applied _ (λ out. refl))
    ]

    apply_file-Quiet : (path : Text) (s : Engine) → Quiet s (apply_file w m path s)
    unfolding apply_file frames
    apply_file-Quiet path s = put-Quiet m (put_files (path ∷ [])) file_not_applied _ (λ out. refl)

    apply_content-Quiet :
        (ev : ClipEvent) (content : Bytes) (s : Engine) → Quiet s (apply_content w m ev content s)
    unfolding apply_content add_history frames
    apply_content-Quiet ev content s = elim (Bool-cases (is_image ev)) [
      | inl image ↦ rw (apply_content, image) (apply_image-Quiet content _)
      | inr other ↦ rw (apply_content, other) (apply_file-Quiet _ _)
    ]

    pub apply_blob-Quiet :
        (ev : ClipEvent) (content : Bytes) (s : Engine) → Quiet s (apply_blob w m ev content s)
    unfolding apply_blob
    apply_blob-Quiet ev content s = elim (Opened-cases (incoming_blob w content ev.enc s.key)) [
      | inl (shown, not_opened) ↦ rw (apply_blob, not_opened) (show_refusal-Quiet shown s)
      | inr (plain, got) ↦ rw (apply_blob, got) (apply_content-Quiet ev plain s)
    ]

    remember_image-Quiet : (sha : Option Text) (s : Engine) → Quiet s (remember_image w m sha s)
    remember_image-Quiet none s = Quiet-refl s
    remember_image-Quiet (some sha) s = Quiet-refl s

    pub advertised-Quiet : (u : Upload) (s : Engine) → Quiet s (advertised w m u s)
    unfolding advertised add_history frames
    advertised-Quiet u s = remember_image-Quiet u.echo_img_sha s
