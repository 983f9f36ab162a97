-- ===== src/Engine/Dedup.antt =====
-- The echo-dedup rings of clients/desktop/core/src/engine.rs. An `Instant` is a number of
-- milliseconds, and `now` is an argument.
pub mod Ring
use copysync.Prelude.{
  ℕ, ◌-◌, Bool, true, false, ◌&&◌, ◌||◌, List, [], ◌∷◌, ◌++◌, Text, text_eq, ltb, leb, any, length,
  drop, if◌then◌else◌,
}

-- `VecDeque<(String, Instant)>`, oldest first.
abbrev pub Dedup : Type 0
Dedup = List (Text × ℕ)

abbrev pub echo_ttl : ℕ
echo_ttl = 3000

abbrev pub ring_size : ℕ
ring_size = 64

-- `q.iter_mut().find(|(x, _)| x == &sha)`
unfoldable pub has_entry : Text → Dedup → Bool
has_entry sha [] = false
has_entry sha ((x, t) ∷ q) = text_eq x sha || has_entry sha q

-- `slot.1 = now` at the first entry that is found
unfoldable pub refresh : Text → ℕ → Dedup → Dedup
refresh sha now [] = []
refresh sha now ((x, t) ∷ q) = if text_eq x sha then (x, now) ∷ q else (x, t) ∷ refresh sha now q

unfoldable pub remember : Dedup → Text → ℕ → Dedup
remember q sha now =
    if has_entry sha q
    then refresh sha now q
    else (if leb ring_size (length q) then drop 1 q else q) ++ (sha, now) ∷ []

unfoldable pub seen : Dedup → Text → ℕ → Bool
seen [] sha now = false
seen ((x, t) ∷ q) sha now = (text_eq x sha && ltb (now - t) echo_ttl) || seen q sha now
