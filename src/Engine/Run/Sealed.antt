-- ===== src/Engine/Run/Sealed.antt =====
-- What it means that an engine with a key keeps its content sealed, and what keeps that so.
use copysync.Prelude.{
  ℕ, ◌≡◌, ◌∙◌, subst, inl, inr, some, List, [], ◌∷◌, ◌++◌, Text, Bytes, arith, Bool-cases,
  Option-cases, text_eq, ltb, length,
}
use copysync.World.{Crates}
use copysync.E2e.{seal}
use copysync.Engine.Holds.{
  Hold, sealed, plain, Holds, max_holds, lookup, remove, evict, hold_on_demand, served,
}
use copysync.Engine.State.{Engine, Job, put_clip, put_hold, get_clip}
use copysync.Engine.Trace.{frames, All, IsSealed}
use copysync.Engine.Run.Quiet.{Quiet}

-- Some bytes that were sealed under `k`.
abbrev pub IsCipher : Crates → Bytes → Bytes → Type 0
IsCipher w k ct = (i : ℕ) × (p : Bytes) × (seal w i k p ≡ some ct)

abbrev pub SealedJob : Crates → Bytes → Text → Job → Type 0
SealedJob w k kid (put_clip u payload) = IsSealed w k kid u.ev × IsCipher w k payload
SealedJob w k kid (put_hold id content) = IsCipher w k content
SealedJob w k kid (get_clip ev) = Unit

abbrev pub SealedHold : Crates → Bytes → Hold → Type 0
SealedHold w k (sealed ct) = IsCipher w k ct
SealedHold w k (plain path) = ⊥

-- The clips that went out, the stash, the holds and the transfers of an engine hold ciphertext
-- only.
pub record Confidential (w : Crates) (k : Bytes) (kid : Text) (s : Engine) : Type 0 where
  pub key : s.key ≡ some (k, kid)
  pub sent : All (IsSealed w k kid) (frames s.out)
  pub stash : All (λ u. IsSealed w k kid u.ev) s.pending
  pub held : All (λ e. SealedHold w k e.1) s.holds.map
  pub jobs : All (SealedJob w k kid) s.jobs

pub All-append {ℓ κ} :
    {A : Type ℓ} (P : A → Type κ) (xs ys : List A) → All P xs → All P ys → All P (xs ++ ys)
All-append P [] ys p q = q
All-append P (x ∷ xs) ys p q = (p.0, All-append P xs ys p.1 q)

pub All-split {ℓ κ} :
    {A : Type ℓ} (P : A → Type κ) (xs : List A) (y : A) (ys : List A)
    → All P (xs ++ y ∷ ys)
    → P y × All P (xs ++ ys)
All-split P [] y ys p = p
All-split P (x ∷ xs) y ys p = let (here, rest) = All-split P xs y ys p.1 in (here, (p.0, rest))

module _ (P : Text × Hold → Type 0) where
  All-remove : (k : Text) (m : List (Text × Hold)) → All P m → All P (remove k m)
  unfolding remove
  All-remove k [] p = tt
  All-remove k ((j, v) ∷ m) p = elim (Bool-cases (text_eq j k)) [
    | inl same ↦ rw (remove, same) (All-remove k m p.1)
    | inr other ↦ rw (remove, other) (p.0, All-remove k m p.1)
  ]

  All-evict : (m : List (Text × Hold)) (order : List Text) → All P m → All P (evict m order).map
  unfolding evict
  All-evict m [] p = p
  All-evict m (old ∷ order) p = elim (Bool-cases (ltb max_holds (length (old ∷ order)))) [
    | inl full ↦ rw (evict, full) (All-evict (remove old m) order (All-remove old m p))
    | inr room ↦ rw (evict, room) p
  ]

  pub All-hold_on_demand :
      (h : Holds) (key : Text) (v : Hold)
      → P (key, v)
      → All P h.map
      → All P (hold_on_demand h key v).map
  unfolding hold_on_demand
  All-hold_on_demand h key v here p = elim (Option-cases (lookup key h.map)) [
    | inl new ↦ rw (hold_on_demand, new) (All-evict _ _ (here, All-remove key h.map p))
    | inr (old, found) ↦ rw (hold_on_demand, found) (here, All-remove key h.map p)
  ]

  pub All-served : (h : Holds) (id : Text) → All P h.map → All P (served h id).map
  unfolding served
  All-served h id p = elim (Option-cases (lookup id h.map)) [
    | inl gone ↦ rw (served, gone) p
    | inr (old, found) ↦ rw (served, found) (All-remove id h.map p)
  ]

pub held-lookup :
    (Q : Hold → Type 0) (id : Text) (v : Hold) (m : List (Text × Hold))
    → All (λ e. Q e.1) m
    → lookup id m ≡ some v
    → Q v
unfolding lookup
held-lookup Q id v [] p found = absurd (ground (arith, found))
held-lookup Q id v ((j, x) ∷ m) p found = elim (Bool-cases (text_eq j id)) [
  | inl same ↦ subst Q (ground (arith, same, found)) p.0
  | inr other ↦ held-lookup Q id v m p.1 (ground (arith, other, found))
]

-- An operation that neither sends nor holds anything keeps the content sealed.
pub Quiet-Confidential :
    {w : Crates} {k : Bytes} {kid : Text} {s t : Engine}
    → Quiet s t
    → Confidential w k kid s
    → Confidential w k kid t
Quiet-Confidential (key, sent, stash, held, jobs) c = record {
  key = key ∙ c.key;
  sent = rw sent c.sent;
  stash = rw stash c.stash;
  held = rw held c.held;
  jobs = rw jobs c.jobs;
}
