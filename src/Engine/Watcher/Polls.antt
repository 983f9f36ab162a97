-- ===== src/Engine/Watcher/Polls.antt =====
-- Successive polls of the clipboard.
use copysync.Prelude.{
  ◌≡◌, refl, ap, sym, ◌∙◌, ◌≢◌, inl, inr, Bool, true, false, not, ◌&&◌, Option, none, some, List,
  [], ◌∷◌, Text, Bytes, text_eq, text_eq_iff, text_eq_refl, is_empty, arith, Bool-cases,
}
use copysync.Engine.Command.{Image, local_text}
use copysync.Engine.Watcher.{
  ClipState, Reads, join, seq_changed, non_empty, image_hash, img_changed, files_changed,
  text_changed, choose, poll_once, files_key, or_default,
}

files-settled : (fs : Option (List Text)) → files_changed (files_key fs) fs ≡ false
unfolding files_changed
files-settled none = refl
files-settled (some fs) = ground (arith, text_eq_refl (join fs))

text-settled : (t : Option Text) → text_changed (or_default (non_empty t)) t ≡ false
unfolding text_changed
text-settled none = refl
text-settled (some []) = refl
text-settled (some (c ∷ t)) = ground (arith, text_eq_refl (c ∷ t))

sent_text-settled : (t : Option Text) → text_changed (or_default t) t ≡ false
unfolding text_changed
sent_text-settled none = refl
sent_text-settled (some t) = ground (arith, text_eq_refl t)

new_text-differs :
    (t last : Text) → t ≢ [] → t ≢ last → (not (is_empty t) && not (text_eq t last)) ≡ true
new_text-differs [] last ne changed = absurd (ne refl)
new_text-differs (c ∷ t) last ne changed = ground (arith, text_eq_iff (c ∷ t) last)

module _ (sha_hex : Bytes → Text) where
  image-settled : (i : Option Image) → img_changed sha_hex (image_hash sha_hex i) i ≡ false
  unfolding img_changed
  image-settled none = refl
  image-settled (some img) = ground (arith, text_eq_refl (sha_hex img.rgba))

  -- No format of `r` counts as changed.
  pub record IsSettled (st : ClipState) (r : Reads) : Type 0 where
    pub image : img_changed sha_hex st.last_img r.image ≡ false
    pub files : files_changed st.last_files r.files ≡ false
    pub text : text_changed st.last_text r.text ≡ false

  choose-IsSettled : (st : ClipState) (r : Reads) → IsSettled (choose sha_hex st r).0 r
  unfolding choose
  choose-IsSettled st r = elim (Bool-cases (img_changed sha_hex st.last_img r.image)) [
    | inl img ↦ rw (img, choose) snapshot
    | inr no_img ↦ elim (Bool-cases (files_changed st.last_files r.files)) [
      | inl fs ↦ rw (no_img, choose, fs) snapshot
      | inr no_fs ↦ elim (Bool-cases (text_changed st.last_text r.text)) [
        | inl t ↦
            rw (no_img, choose, no_fs, t)
              (record { image = no_img; files = no_fs; text = sent_text-settled r.text })
        | inr no_t ↦
            rw (no_img, choose, no_fs, no_t) (record { image = no_img; files = no_fs; text = no_t })
      ]
    ]
  ]
    where
      snapshot :
          IsSettled
            (record st {
              last_img = image_hash sha_hex r.image;
              last_text = or_default (non_empty r.text);
              last_files = files_key r.files;
            })
            r
      snapshot = record {
        image = image-settled r.image;
        files = files-settled r.files;
        text = text-settled r.text;
      }

  pub settled-choose :
      (st : ClipState) (r : Reads) → IsSettled st r → choose sha_hex st r ≡ (st, [])
  unfolding choose
  settled-choose st r v = ground arith

  -- `poll_once` by its two cases.
  pub poll-idle :
      (st : ClipState) (r : Reads)
      → seq_changed r.seq st.last_seq ≡ false
      → poll_once sha_hex st r ≡ record { state = st; cmds = []; logs = [] }
  unfolding poll_once
  poll-idle st r h = rw h

  pub poll-cmds :
      (st : ClipState) (r : Reads)
      → seq_changed r.seq st.last_seq ≡ true
      → (poll_once sha_hex st r).cmds ≡ (choose sha_hex st r).1
  unfolding poll_once
  poll-cmds st r h = rw h

  pub poll-IsSettled :
      (st : ClipState) (r : Reads)
      → seq_changed r.seq st.last_seq ≡ true
      → IsSettled (poll_once sha_hex st r).state r
  unfolding poll_once
  poll-IsSettled st r h =
      let v = choose-IsSettled st r in
      rw h (record { image = v.image; files = v.files; text = v.text })

  pub settled-cmds :
      (st : ClipState) (r : Reads) → IsSettled st r → (poll_once sha_hex st r).cmds ≡ []
  settled-cmds st r v = elim (Bool-cases (seq_changed r.seq st.last_seq)) [
    | inl fresh ↦ poll-cmds st r fresh ∙ ap (λ p. p.1) (settled-choose st r v)
    | inr old ↦ ap (λ p. p.cmds) (poll-idle st r old)
  ]

  -- A clipboard that has not changed since the last poll sends nothing, whichever formats it holds
  -- and whether or not the platform counts its changes.
  pub poll_once-again :
      (st : ClipState) (r : Reads) → (poll_once sha_hex (poll_once sha_hex st r).state r).cmds ≡ []
  poll_once-again st r = elim (Bool-cases (seq_changed r.seq st.last_seq)) [
    | inl fresh ↦ settled-cmds (poll_once sha_hex st r).state r (poll-IsSettled st r fresh)
    | inr old ↦ rw (poll-idle st r old) (ap (λ p. p.cmds) (poll-idle st r old))
  ]

  -- No read of a locked clipboard answers.
  abbrev pub IsLocked : Reads → Type 0
  IsLocked r = (r.image ≡ none) × (r.files ≡ none) × (r.text ≡ none)

  locked-IsSettled : (st : ClipState) (r : Reads) → IsLocked r → IsSettled st r
  unfolding img_changed files_changed text_changed
  locked-IsSettled st r (no_image, no_files, no_text) = record {
    image = rw no_image;
    files = rw no_files;
    text = rw no_text;
  }

  -- What a locked poll leaves of the state.
  locked-state :
      (st : ClipState) (r : Reads)
      → IsLocked r
      → (h : Bool) × ((poll_once sha_hex st r).state ≡ record st { had_rich_last = h })
  unfolding poll_once
  locked-state st r locked = elim (Bool-cases (seq_changed r.seq st.last_seq)) [
    | inl fresh ↦ (
      false,
      rw (fresh, settled-choose st r (locked-IsSettled st r locked), locked.0, locked.1, locked.2),
    )
    | inr old ↦ (st.had_rich_last, ap (λ p. p.state) (poll-idle st r old))
  ]

  choose-had_rich :
      (st : ClipState) (r : Reads) (h : Bool)
      → (choose sha_hex (record st { had_rich_last = h }) r).1 ≡ (choose sha_hex st r).1
  unfolding choose
  choose-had_rich st r h = ground arith

  cmds-had_rich :
      (st : ClipState) (r : Reads) (h : Bool)
      → (poll_once sha_hex (record st { had_rich_last = h }) r).cmds ≡ (poll_once sha_hex st r).cmds
  cmds-had_rich st r h = elim (Bool-cases (seq_changed r.seq st.last_seq)) [
    | inl fresh ↦
        poll-cmds (record st { had_rich_last = h }) r fresh
        ∙ choose-had_rich st r h
        ∙ sym (poll-cmds st r fresh)
    | inr old ↦
        ap (λ p. p.cmds) (poll-idle (record st { had_rich_last = h }) r old)
        ∙ sym (ap (λ p. p.cmds) (poll-idle st r old))
  ]

  -- A poll of a locked clipboard sends nothing and commits nothing: the next poll sends what it
  -- would have sent in its place, also where the change counter has not moved since.
  pub poll_once-locked :
      (st : ClipState) (locked r : Reads)
      → IsLocked locked
      → ((poll_once sha_hex st locked).cmds ≡ [])
        × ((poll_once sha_hex (poll_once sha_hex st locked).state r).cmds
            ≡ (poll_once sha_hex st r).cmds)
  poll_once-locked st locked r h =
      let (rich, same) = locked-state st locked h in
      (settled-cmds st locked (locked-IsSettled st locked h), rw same (cmds-had_rich st r rich))

  -- A text that differs from the last one is sent, whatever stale image or file list is beside it.
  pub poll_once-new_text :
      (st : ClipState) (r : Reads) (t : Text)
      → seq_changed r.seq st.last_seq ≡ true
      → img_changed sha_hex st.last_img r.image ≡ false
      → files_changed st.last_files r.files ≡ false
      → r.text ≡ some t
      → t ≢ []
      → t ≢ st.last_text
      → (poll_once sha_hex st r).cmds ≡ local_text t (non_empty r.html) ∷ []
  unfolding choose text_changed
  poll_once-new_text st r t fresh no_img no_fs is_t ne changed =
      poll-cmds st r fresh ∙ ground (arith, new_text-differs t st.last_text ne changed)
