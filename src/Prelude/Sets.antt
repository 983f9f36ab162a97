-- ===== src/Prelude/Sets.antt =====
-- Lists of texts without repetition.
use mathlib.Core.Path.{◌≡◌, refl}
use mathlib.Core.Bool.{Bool, true, false, ◌||◌}
use mathlib.Core.List.{List, [], ◌∷◌, ◌++◌}
use native.Mathlib.Omega.{arith}
use copysync.Prelude.Texts.{Text, text_eq, text_eq_iff}

unfoldable pub member : Text → List Text → Bool
member k [] = false
member k (j ∷ l) = text_eq j k || member k l

abbrev pub Distinct : List Text → Type 0
Distinct [] = Unit {0}
Distinct (k ∷ l) = (member k l ≡ false) × Distinct l

pub member-append :
    (k j : Text) (l : List Text) → member k (l ++ j ∷ []) ≡ (member k l || text_eq j k)
unfolding member
member-append k j [] = ground arith
member-append k j (i ∷ l) = ground (arith, member-append k j l)

pub Distinct-append :
    (j : Text) (l : List Text) → Distinct l → member j l ≡ false → Distinct (l ++ j ∷ [])
unfolding member
Distinct-append j [] d h = (refl, tt)
Distinct-append j (i ∷ l) d h =
    ground (arith, member-append i j l, text_eq_iff i j, text_eq_iff j i, Distinct-append j l d.1)

-- What a list has it keeps when it grows.
pub member_append : (k j : Text) (l : List Text) → member k l ≡ true → member k (l ++ j ∷ []) ≡ true
member_append k j l h = ground (arith, member-append k j l)
