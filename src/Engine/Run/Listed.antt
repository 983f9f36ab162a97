-- ===== src/Engine/Run/Listed.antt =====
-- What the clips of a trace and the uploads of a stash are: members of a list.
use copysync.Prelude.{◌≡◌, refl, ap, ◌⊎◌, inl, inr, List, [], ◌∷◌, ◌++◌}
use copysync.Protocol.{ClipEvent}
use copysync.Engine.State.{Upload}
use copysync.Engine.Actor.Stash.{sent_after}

abbrev pub In : {A : Type 0} → A → List A → Type 0
In a [] = ⊥
In a (x ∷ xs) = (x ≡ a) ⊎ In a xs

pub In-left : {A : Type 0} (a : A) (xs ys : List A) → In a xs → In a (xs ++ ys)
In-left a [] ys h = absurd h
In-left a (x ∷ xs) ys (inl e) = inl e
In-left a (x ∷ xs) ys (inr h) = inr (In-left a xs ys h)

pub In-last : {A : Type 0} (a : A) (xs : List A) → In a (xs ++ a ∷ [])
In-last a [] = inl refl
In-last a (x ∷ xs) = inr (In-last a xs)

pub In-split : {A : Type 0} (a : A) (xs ys : List A) → In a (xs ++ ys) → In a xs ⊎ In a ys
In-split a [] ys h = inr h
In-split a (x ∷ xs) ys (inl e) = inl (inl e)
In-split a (x ∷ xs) ys (inr h) = elim (In-split a xs ys h) [ inl l ↦ inl (inr l) | inr r ↦ inr r ]

pub sent_after-keeps :
    (ev : ClipEvent) (us : List Upload) (out : List ClipEvent)
    → In ev out
    → In ev (sent_after out us)
sent_after-keeps ev [] out h = h
sent_after-keeps ev (u ∷ us) out h = sent_after-keeps ev us (u.ev ∷ out) (inr h)

pub sent_after-sends :
    (u : Upload) (us : List Upload) (out : List ClipEvent) → In u us → In u.ev (sent_after out us)
sent_after-sends u [] out h = absurd h
sent_after-sends u (v ∷ us) out (inl e) =
    sent_after-keeps u.ev us (v.ev ∷ out) (inl (ap (λ x. x.ev) e))
sent_after-sends u (v ∷ us) out (inr h) = sent_after-sends u us (v.ev ∷ out) h
