-- ===== src/Engine/Roster/Laws.antt =====
-- What a presence frame does to the roster.
use copysync.Prelude.{
  ◌≡◌, refl, ◌∙◌, inl, inr, Bool, none, some, List, [], ◌∷◌, ◌++◌, Text, text_eq, text_eq_iff,
  arith, Option-cases, is_empty, if◌then◌else◌,
}
use copysync.Protocol.{Presence}
use copysync.Engine.Roster.{
  RosterDevice, find, update, apply_presence, other_device, clip_origin_name,
}

abbrev pub shown : Presence → RosterDevice
shown p = record { id = p.device.id; name = p.device.name; online = p.online }

find-id : (k : Text) (r : List RosterDevice) (d : RosterDevice) → find k r ≡ some d → d.id ≡ k
unfolding find
find-id k [] d h = cc
find-id k (e ∷ r) d h = ground (arith, find-id k r d, text_eq_iff e.id k)

find-update :
    (k j name : Text) (online : Bool) (r : List RosterDevice) (d : RosterDevice)
    → find k r ≡ some d
    → find j (update k name online r)
      ≡ (if text_eq k j then some (record { id = k; name = name; online = online }) else find j r)
unfolding find update
find-update k j name online [] d h = cc
find-update k j name online (e ∷ r) d h = ground (
  arith,
  find-update k j name online r d,
  text_eq_iff e.id k,
  text_eq_iff e.id j,
  text_eq_iff k j,
)

find-append :
    (j : Text) (r : List RosterDevice) (d : RosterDevice)
    → find d.id r ≡ none
    → find j (r ++ d ∷ []) ≡ (if text_eq d.id j then some d else find j r)
unfolding find
find-append j [] d h = refl
find-append j (e ∷ r) d h =
    ground (arith, find-append j r d, text_eq_iff e.id j, text_eq_iff d.id j, text_eq_iff e.id d.id)

-- After a presence frame its device has the name and the state that the frame gives, and every
-- other device is as it was.
pub find-apply_presence :
    (r : List RosterDevice) (p : Presence) (j : Text)
    → find j (apply_presence r p) ≡ (if text_eq p.device.id j then some (shown p) else find j r)
unfolding apply_presence
find-apply_presence r p j = elim (Option-cases (find p.device.id r)) [
  | inl new ↦ rw (new, apply_presence) (find-append j r (shown p) new)
  | inr (d, known) ↦
      rw (known, apply_presence) (find-update p.device.id j p.device.name p.online r d known)
]

update-update :
    (k name name' : Text) (online online' : Bool) (r : List RosterDevice)
    → update k name' online' (update k name online r) ≡ update k name' online' r
unfolding update
update-update k name name' online online' [] = refl
update-update k name name' online online' (e ∷ r) =
    ground (arith, update-update k name name' online online' r)

update-append :
    (k name : Text) (online : Bool) (r : List RosterDevice) (d : RosterDevice)
    → find k r ≡ none
    → d.id ≡ k
    → update k name online (r ++ d ∷ []) ≡ r ++ record { id = k; name = name; online = online } ∷ []
unfolding update find
update-append k name online [] d h e = ground (arith, text_eq_iff d.id k)
update-append k name online (f ∷ r) d h e = ground (arith, update-append k name online r d)

apply_presence-known :
    (r : List RosterDevice) (p : Presence) (d : RosterDevice)
    → find p.device.id r ≡ some d
    → apply_presence r p ≡ update p.device.id p.device.name p.online r
unfolding apply_presence
apply_presence-known r p d h = rw (h, apply_presence)

apply_presence-new :
    (r : List RosterDevice) (p : Presence)
    → find p.device.id r ≡ none
    → apply_presence r p ≡ r ++ shown p ∷ []
unfolding apply_presence
apply_presence-new r p h = rw (h, apply_presence)

found_after :
    (r : List RosterDevice) (p q : Presence)
    → p.device.id ≡ q.device.id
    → find q.device.id (apply_presence r p) ≡ some (shown p)
found_after r p q e =
    rw (find-apply_presence r p q.device.id, (text_eq_iff p.device.id q.device.id).1 e)

-- A device that reports twice is in the roster once: the second of two frames of one device leaves
-- the roster that it would have left alone.
pub apply_presence-last :
    (r : List RosterDevice) (p q : Presence)
    → p.device.id ≡ q.device.id
    → apply_presence (apply_presence r p) q ≡ apply_presence r q
apply_presence-last r p q e =
    apply_presence-known (apply_presence r p) q (shown p) (found_after r p q e)
    ∙ elim (Option-cases (find p.device.id r)) [
      | inl new ↦
          rw (apply_presence-new r p new, apply_presence-new r q (rw e at new))
            (update-append q.device.id q.device.name q.online r (shown p) (rw e at new) e)
      | inr (d, known) ↦
          rw (apply_presence-known r p d known, apply_presence-known r q d (rw e at known), e)
            (update-update q.device.id p.device.name q.device.name p.online q.online r)
    ]

-- The name that a notification shows for a device after its presence frame: the frame's, or
-- "another device" if that is empty.
pub clip_origin_name-apply_presence :
    (r : List RosterDevice) (p : Presence)
    → clip_origin_name (apply_presence r p) p.device.id
      ≡ (if is_empty p.device.name then other_device else p.device.name)
unfolding clip_origin_name
clip_origin_name-apply_presence r p = rw (found_after r p p refl, clip_origin_name)
