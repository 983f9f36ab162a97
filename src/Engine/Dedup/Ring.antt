-- ===== src/Engine/Dedup/Ring.antt =====
-- The ring as a bounded map from hashes to the times when they were last remembered.
use copysync.Prelude.{
  ℕ, ◌∙◌, ◌+◌, ◌-◌, ◌≤◌, ◌<◌, ◌≡◌, refl, ◌≢◌, ◌⊎◌, inl, inr, Bool, true, false, ◌||◌, Option, none,
  some, [], ◌∷◌, ◌++◌, Text, text_eq, text_eq_iff, text_eq_refl, ltb, leb, length, length-append,
  length-drop, drop, arith, Bool-cases, if◌then◌else◌,
}
use copysync.Engine.Dedup.{Dedup, echo_ttl, ring_size, has_entry, refresh, remember, seen}

-- Every hash has one entry at most.
abbrev pub Distinct : Dedup → Type 0
Distinct [] = Unit {0}
Distinct ((x, t) ∷ q) = (has_entry x q ≡ false) × Distinct q

pub record IsRing (q : Dedup) : Type 0 where
  pub bounded : length q ≤ ring_size
  pub distinct : Distinct q

pub no-IsRing : IsRing []
no-IsRing = record { bounded = omega arith; distinct = tt }

-- The time at which a hash was last remembered.
pub last_time : Text → Dedup → Option ℕ
last_time sha [] = none
last_time sha ((x, t) ∷ q) = if text_eq x sha then some t else last_time sha q

abbrev pub within_ttl : ℕ → Option ℕ → Bool
within_ttl now none = false
within_ttl now (some t) = ltb (now - t) echo_ttl

has_entry-refresh :
    (k sha : Text) (now : ℕ) (q : Dedup) → has_entry k (refresh sha now q) ≡ has_entry k q
unfolding has_entry refresh
has_entry-refresh k sha now [] = refl
has_entry-refresh k sha now ((x, t) ∷ q) = ground (arith, has_entry-refresh k sha now q)

has_entry-append :
    (k sha : Text) (now : ℕ) (q : Dedup)
    → has_entry k (q ++ (sha, now) ∷ []) ≡ (has_entry k q || text_eq sha k)
unfolding has_entry
has_entry-append k sha now [] = ground arith
has_entry-append k sha now ((x, t) ∷ q) = ground (arith, has_entry-append k sha now q)

length-refresh : (sha : Text) (now : ℕ) (q : Dedup) → length (refresh sha now q) ≡ length q
unfolding refresh
length-refresh sha now [] = refl
length-refresh sha now ((x, t) ∷ q) = ground (arith, length-refresh sha now q)

Distinct-refresh : (sha : Text) (now : ℕ) (q : Dedup) → Distinct q → Distinct (refresh sha now q)
unfolding refresh
Distinct-refresh sha now [] d = tt
Distinct-refresh sha now ((x, t) ∷ q) d =
    ground (arith, has_entry-refresh x sha now q, Distinct-refresh sha now q d.1)

Distinct-append :
    (sha : Text) (now : ℕ) (q : Dedup)
    → Distinct q
    → has_entry sha q ≡ false
    → Distinct (q ++ (sha, now) ∷ [])
unfolding has_entry
Distinct-append sha now [] d h = (refl, tt)
Distinct-append sha now ((x, t) ∷ q) d h = ground (
  arith,
  has_entry-append x sha now q,
  text_eq_iff sha x,
  text_eq_iff x sha,
  Distinct-append sha now q d.1,
)

has_entry-drop : (k : Text) (q : Dedup) → has_entry k q ≡ false → has_entry k (drop 1 q) ≡ false
unfolding has_entry
has_entry-drop k [] h = refl
has_entry-drop k (e ∷ q) h = ground arith

Distinct-drop : (q : Dedup) → Distinct q → Distinct (drop 1 q)
Distinct-drop [] d = tt
Distinct-drop (e ∷ q) d = d.1

-- Remembering keeps the ring within its 64 entries, one for each hash.
pub remember-IsRing : (q : Dedup) (sha : Text) (now : ℕ) → IsRing q → IsRing (remember q sha now)
unfolding remember
remember-IsRing q sha now v = elim (Bool-cases (has_entry sha q)) [
  | inl old ↦ rw old (record {
    bounded = omega (arith, length-refresh sha now q, v.bounded);
    distinct = Distinct-refresh sha now q v.distinct;
  })
  | inr new ↦ rw new (appended new)
]
  where
    appended :
        has_entry sha q ≡ false
        → IsRing ((if leb ring_size (length q) then drop 1 q else q) ++ (sha, now) ∷ [])
    appended new = elim (Bool-cases (leb ring_size (length q))) [
      | inl full ↦ rw full (record {
        bounded =
            omega (arith, length-append (drop 1 q) ((sha, now) ∷ []), length-drop 1 q, v.bounded);
        distinct =
            Distinct-append sha now (drop 1 q) (Distinct-drop q v.distinct)
              (has_entry-drop sha q new);
      })
      | inr room ↦ rw room (record {
        bounded = ground (arith, length-append q ((sha, now) ∷ []));
        distinct = Distinct-append sha now q v.distinct new;
      })
    ]

last_time-refresh :
    (k sha : Text) (now : ℕ) (q : Dedup)
    → has_entry sha q ≡ true
    → last_time k (refresh sha now q) ≡ (if text_eq sha k then some now else last_time k q)
unfolding last_time refresh has_entry
last_time-refresh k sha now [] h = cc
last_time-refresh k sha now ((x, t) ∷ q) h =
    ground
      (arith, last_time-refresh k sha now q, text_eq_iff x sha, text_eq_iff x k, text_eq_iff sha k)

last_time-append :
    (k sha : Text) (now : ℕ) (q : Dedup)
    → has_entry sha q ≡ false
    → last_time k (q ++ (sha, now) ∷ []) ≡ (if text_eq sha k then some now else last_time k q)
unfolding last_time has_entry
last_time-append k sha now [] h = refl
last_time-append k sha now ((x, t) ∷ q) h =
    ground
      (arith, last_time-append k sha now q, text_eq_iff x k, text_eq_iff sha k, text_eq_iff x sha)

last_time-absent : (k : Text) (q : Dedup) → has_entry k q ≡ false → last_time k q ≡ none
unfolding last_time has_entry
last_time-absent k [] h = refl
last_time-absent k ((x, t) ∷ q) h = ground (arith, last_time-absent k q)

seen-absent : (k : Text) (q : Dedup) (now : ℕ) → has_entry k q ≡ false → seen q k now ≡ false
unfolding seen has_entry
seen-absent k [] now h = refl
seen-absent k ((x, t) ∷ q) now h = ground (arith, seen-absent k q now)

-- In a ring a hash counts as seen exactly while its last time is within the window.
pub seen-last_time :
    (q : Dedup) (k : Text) (now : ℕ) → Distinct q → seen q k now ≡ within_ttl now (last_time k q)
unfolding seen last_time
seen-last_time [] k now d = refl
seen-last_time ((x, t) ∷ q) k now d =
    ground (arith, seen-last_time q k now d.1, seen-absent k q now, text_eq_iff x k)

-- Hashes that are remembered one after the other, the oldest first.
abbrev pub remember_all : Dedup → Dedup → Dedup
remember_all q [] = q
remember_all q ((sha, t) ∷ others) = remember_all (remember q sha t) others

-- The last times after a hash is remembered while the ring has room, or holds the hash.
last_time-remember :
    (q : Dedup) (sha k : Text) (now : ℕ)
    → (has_entry sha q ≡ true) ⊎ (length q < ring_size)
    → last_time k (remember q sha now) ≡ (if text_eq sha k then some now else last_time k q)
unfolding remember
last_time-remember q sha k now room = elim (Bool-cases (has_entry sha q)) [
  | inl old ↦ rw old (last_time-refresh k sha now q old)
  | inr new ↦ ground (arith, last_time-append k sha now q new)
]

-- A full ring forgets its oldest entry for a new hash.
last_time-remember_full :
    (q : Dedup) (sha k : Text) (now : ℕ)
    → has_entry sha q ≡ false
    → leb ring_size (length q) ≡ true
    → last_time k (remember q sha now)
      ≡ (if text_eq sha k then some now else last_time k (drop 1 q))
unfolding remember
last_time-remember_full q sha k now new full =
    rw (new, full) (last_time-append k sha now (drop 1 q) (has_entry-drop sha q new))

-- A hash that has just been remembered counts as seen for three seconds, and no longer; this holds
-- whatever the ring held before, also where it was full.
pub seen-remember_self :
    (q : Dedup) (sha : Text) (now later : ℕ)
    → IsRing q
    → seen (remember q sha now) sha later ≡ ltb (later - now) echo_ttl
seen-remember_self q sha now later v = ground (
  arith,
  seen-last_time (remember q sha now) sha later (remember-IsRing q sha now v).distinct,
  last_time-self,
)
  where
    last_time-self : last_time sha (remember q sha now) ≡ some now
    last_time-self = elim (Bool-cases (has_entry sha q)) [
      | inl old ↦ rw (last_time-remember q sha sha now (inl old), text_eq_refl sha)
      | inr new ↦ elim (Bool-cases (leb ring_size (length q))) [
        | inl full ↦ rw (last_time-remember_full q sha sha now new full, text_eq_refl sha)
        | inr room ↦ rw (last_time-remember q sha sha now (inr (ground arith)), text_eq_refl sha)
      ]
    ]

-- Remembering a hash changes nothing for the others, while the ring has room or holds the hash.
pub seen-remember_ne :
    (q : Dedup) (sha k : Text) (now later : ℕ)
    → IsRing q
    → sha ≢ k
    → (has_entry sha q ≡ true) ⊎ (length q < ring_size)
    → seen (remember q sha now) k later ≡ seen q k later
seen-remember_ne q sha k now later v ne room = ground (
  arith,
  seen-last_time q k later v.distinct,
  seen-last_time (remember q sha now) k later (remember-IsRing q sha now v).distinct,
  last_time-remember q sha k now room,
  text_eq_iff sha k,
)

length-remember : (q : Dedup) (sha : Text) (now : ℕ) → length (remember q sha now) ≤ length q + 1
unfolding remember
length-remember q sha now = elim (Bool-cases (has_entry sha q)) [
  | inl old ↦ rw old (omega (arith, length-refresh sha now q))
  | inr new ↦ elim (Bool-cases (leb ring_size (length q))) [
    | inl full ↦
        rw (new, full) (omega (arith, length-append (drop 1 q) ((sha, now) ∷ []), length-drop 1 q))
    | inr room ↦ rw (new, room) (omega (arith, length-append q ((sha, now) ∷ [])))
  ]
]

-- Other hashes do not push a hash out while there is room for all of them.
pub seen-remember_all :
    (others q : Dedup) (k : Text) (later : ℕ)
    → IsRing q
    → has_entry k others ≡ false
    → length q + length others ≤ ring_size
    → seen (remember_all q others) k later ≡ seen q k later
unfolding has_entry
seen-remember_all [] q k later v absent room = refl
seen-remember_all ((sha, t) ∷ others) q k later v absent room =
    seen-remember_all others (remember q sha t) k later (remember-IsRing q sha t v) (ground arith)
      (omega (arith, room, length-remember q sha t))
    ∙ seen-remember_ne q sha k t later v
        (λ same. absurd (ground (arith, absent, same, text_eq_iff sha k)))
        (inr (omega (arith, room)))
