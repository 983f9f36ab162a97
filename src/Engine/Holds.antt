-- ===== src/Engine/Holds.antt =====
-- The on-demand holds of clients/desktop/core/src/engine.rs: `hold_on_demand`, and the removal of a
-- hold that has been served. The hash map is an association list; it is never iterated.
pub mod Laws
use copysync.Prelude.{
  ℕ, Bool, true, false, not, Option, none, some, List, [], ◌∷◌, ◌++◌, Text, Bytes, text_eq, ltb,
  keep, length, if◌then◌else◌,
}

-- `enum Hold`: the exact ciphertext, or a path that is read again on demand.
pub data Hold : Type 0 where
  sealed : Bytes → Hold
  plain : Text → Hold

-- `on_demand` and `on_demand_order`.
pub record Holds : Type 0 where
  pub map : List (Text × Hold)
  pub order : List Text

abbrev pub no_holds : Holds
no_holds = record { map = []; order = [] }

abbrev pub max_holds : ℕ
max_holds = 64

unfoldable pub lookup : Text → List (Text × Hold) → Option Hold
lookup k [] = none
lookup k ((j, v) ∷ m) = if text_eq j k then some v else lookup k m

unfoldable pub remove : Text → List (Text × Hold) → List (Text × Hold)
remove k [] = []
remove k ((j, v) ∷ m) = let rest = remove k m in if text_eq j k then rest else (j, v) ∷ rest

-- `on_demand.get(id)`
abbrev pub get : Holds → Text → Option Hold
get h k = lookup k h.map

-- The loop `while order.len() > MAX_HOLDS`.
unfoldable pub evict : List (Text × Hold) → List Text → Holds
evict m [] = record { map = m; order = [] }
evict m (old ∷ order) =
    if ltb max_holds (length (old ∷ order))
    then evict (remove old m) order
    else record { map = m; order = old ∷ order }

unfoldable pub hold_on_demand : Holds → Text → Hold → Holds
hold_on_demand h key hold =
    let m = (key, hold) ∷ remove key h.map in
    elim (lookup key h.map) [
      | none ↦ evict m (h.order ++ key ∷ [])
      | some old ↦ record h { map = m }
    ]

-- The arm of `BlobResult::Serve { id, ok: true }`.
unfoldable pub served : Holds → Text → Holds
served h id = elim (lookup id h.map) [
  | none ↦ h
  | some old ↦ record { map = remove id h.map; order = keep (λ k. not (text_eq k id)) h.order }
]
