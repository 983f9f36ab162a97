-- ===== src/Engine/Incoming/Echo.antt =====
-- A text that has come in, and the report of it by the watcher.
use copysync.Prelude.{
  ℕ, ◌+◌, ◌-◌, ◌<◌, ◌≤◌, ◌≡◌, refl, ap, sym, subst, false, length, ◌∙◌, inl, inr, true, Option, [],
  Text, utf8, arith, Option-cases,
}
use copysync.Prelude.Int.{ℤ, pos, negsuc}
use copysync.World.{Crates, sha_hex}
use copysync.Privacy.{classify}
use copysync.Protocol.{ClipEvent}
use copysync.Engine.Dedup.{Dedup, remember, seen, has_entry, echo_ttl, ring_size}
use copysync.Engine.Dedup.Ring.{
  IsRing, remember-IsRing, remember_all, seen-remember_all, seen-remember_self,
}
use copysync.Engine.State.{
  Engine, Machine, Effect, Notice, put, add_history, schedule_purge, schedule_clear_text,
}
use copysync.Engine.SendText.{local_text_arm}
use copysync.Engine.Incoming.{apply_text, purge_secret}

recent-put :
    (m : Machine) (e : Effect) (n : Notice) (s : Engine) → (put m e n s).recent_text ≡ s.recent_text
unfolding put
recent-put m e n s = ground arith

recent-schedule_clear_text :
    (t : Text) (secs : ℕ) (s : Engine) → (schedule_clear_text t secs s).recent_text ≡ s.recent_text
unfolding schedule_clear_text
recent-schedule_clear_text t secs s = ground arith

recent-schedule_purge :
    (id : ℤ) (ttl : ℕ) (s : Engine) → (schedule_purge id ttl s).recent_text ≡ s.recent_text
unfolding schedule_purge
recent-schedule_purge (negsuc n) ttl s = refl
recent-schedule_purge (pos n) ttl s = ground arith

module _ (w : Crates) where
  recent-purge_secret :
      (t : Text) (row : ℤ) (s : Engine) → (purge_secret w t row s).recent_text ≡ s.recent_text
  unfolding purge_secret
  recent-purge_secret t row s = elim (Option-cases (classify w.is_alphanumeric t [])) [
    | inl harmless ↦ rw (purge_secret, harmless) refl
    | inr (reason, secret) ↦ rw (purge_secret, secret) (recent-schedule_purge row _ s)
  ]

  recent-apply_text :
      (m : Machine) (ev : ClipEvent) (text : Text) (html : Option Text) (s : Engine)
      → (apply_text w m ev text html s).recent_text
        ≡ remember s.recent_text (sha_hex w (utf8 text)) m.now
  unfolding apply_text add_history
  recent-apply_text m ev text html s =
      recent-purge_secret text _ _ ∙ (recent-schedule_clear_text text _ _ ∙ recent-put m _ _ _)

  -- Less than three seconds after a text has been applied, the watcher's report of that text sends
  -- nothing and changes nothing, if the engine has meanwhile remembered other texts only, for which
  -- the ring had room beside what it then held.
  pub local_text_arm-apply_text :
      (m later : Machine) (ev : ClipEvent) (text : Text) (html rich : Option Text) (s t : Engine)
      (others : Dedup)
      → IsRing s.recent_text
      → later.now - m.now < echo_ttl
      → t.recent_text ≡ remember_all (apply_text w m ev text html s).recent_text others
      → has_entry (sha_hex w (utf8 text)) others ≡ false
      → length (apply_text w m ev text html s).recent_text + length others ≤ ring_size
      → local_text_arm w later text rich t ≡ (true, t)
  unfolding local_text_arm
  local_text_arm-apply_text m later ev text html rich s t others ring soon since absent room =
      let sha = sha_hex w (utf8 text) in
      let q = (apply_text w m ev text html s).recent_text in
      let applied : q ≡ remember s.recent_text sha m.now = recent-apply_text m ev text html s in
      let q_ring : IsRing q =
        subst IsRing (sym applied) (remember-IsRing s.recent_text sha m.now ring) in
      let kept : seen t.recent_text sha later.now ≡ seen q sha later.now =
        ap (λ x. seen x sha later.now) since
        ∙ seen-remember_all others q sha later.now q_ring absent room in
      let echo : seen t.recent_text sha later.now ≡ true =
        kept
        ∙ ap (λ x. seen x sha later.now) applied
        ∙ seen-remember_self s.recent_text sha m.now later.now ring
        ∙ ground (arith, soon) in
      rw (local_text_arm, echo) refl
