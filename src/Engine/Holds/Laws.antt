-- ===== src/Engine/Holds/Laws.antt =====
-- The hold map, its order and its bound.
use native.Mathlib.Decide.{dec_lt}
use copysync.Prelude.{
  suc, ◌≤◌, ◌≡◌, refl, inl, inr, Bool, true, false, not, ◌&&◌, leb, take, Option, none, some, List,
  [], ◌∷◌, ◌++◌, Text, text_eq, text_eq_iff, member, Distinct, member-append, Distinct-append,
  length, keep, length-keep-le, length-append, arith, Option-cases, if◌then◌else◌,
}
use copysync.Engine.Holds.{
  Hold, Holds, no_holds, max_holds, lookup, remove, get, evict, hold_on_demand, served,
}

abbrev pub is_some {ℓ} : {A : Type ℓ} → Option A → Bool
is_some none = false
is_some (some a) = true

pub record IsHolds (h : Holds) : Type 0 where
  -- The order lists exactly the keys of the map, each once.
  pub keys : (k : Text) → is_some (lookup k h.map) ≡ member k h.order
  pub distinct : Distinct h.order
  pub bounded : length h.order ≤ max_holds

pub no_holds-IsHolds : IsHolds no_holds
unfolding lookup member
no_holds-IsHolds = record { keys = λ k. refl; distinct = tt; bounded = omega arith }

lookup-remove :
    (k j : Text) (m : List (Text × Hold))
    → lookup j (remove k m) ≡ (if text_eq k j then none else lookup j m)
unfolding lookup remove
lookup-remove k j [] = ground arith
lookup-remove k j ((i, v) ∷ m) =
    ground (arith, lookup-remove k j m, text_eq_iff i k, text_eq_iff i j, text_eq_iff k j)

member-keep :
    (id k : Text) (l : List Text)
    → member k (keep (λ j. not (text_eq j id)) l) ≡ (not (text_eq id k) && member k l)
unfolding member keep
member-keep id k [] = ground arith
member-keep id k (j ∷ l) =
    ground (arith, member-keep id k l, text_eq_iff j id, text_eq_iff id k, text_eq_iff j k)

Distinct-keep :
    (id : Text) (l : List Text) → Distinct l → Distinct (keep (λ j. not (text_eq j id)) l)
unfolding keep
Distinct-keep id [] d = tt
Distinct-keep id (j ∷ l) d = ground (arith, member-keep id j l, Distinct-keep id l d.1)

evict-within :
    (m : List (Text × Hold)) (l : List Text)
    → length l ≤ max_holds
    → evict m l ≡ record { map = m; order = l }
unfolding evict
evict-within m [] h = refl
evict-within m (k ∷ l) h = ground arith

-- With one key too many the oldest goes.
evict-one :
    (m : List (Text × Hold)) (k : Text) (l : List Text)
    → length l ≡ max_holds
    → evict m (k ∷ l) ≡ record { map = remove k m; order = l }
unfolding evict
evict-one m k l h = ground (arith, evict-within (remove k m) l)

-- What a hold leaves behind: the map with the new entry, or that without the oldest entry.
evicted-IsHolds :
    (m : List (Text × Hold)) (l : List Text)
    → ((k : Text) → is_some (lookup k m) ≡ member k l)
    → Distinct l
    → length l ≤ suc max_holds
    → IsHolds (evict m l)
unfolding member
evicted-IsHolds m [] keys d b =
    rw (evict-within m [] (omega arith))
      (record { keys = keys; distinct = d; bounded = omega arith })
evicted-IsHolds m (j ∷ l) keys d b = elim (dec_lt (length l) max_holds) [
  | yes room ↦
      rw (evict-within m (j ∷ l) (omega arith))
        (record { keys = keys; distinct = d; bounded = omega arith })
  | no full ↦
      rw (evict-one m j l (omega arith))
        (record { keys = λ k. without k; distinct = d.1; bounded = omega arith })
]
  where
    without : (k : Text) → is_some (lookup k (remove j m)) ≡ member k l
    without k = ground (arith, lookup-remove j k m, keys k, text_eq_iff j k, d.0)

inserted-keys :
    (key k : Text) (v : Hold) (m : List (Text × Hold))
    → lookup k ((key, v) ∷ remove key m) ≡ (if text_eq key k then some v else lookup k m)
unfolding lookup
inserted-keys key k v m = ground (arith, lookup-remove key k m)

-- Holding a blob keeps the map and its order in step and within 64 entries.
pub hold_on_demand-IsHolds :
    (h : Holds) (key : Text) (v : Hold) → IsHolds h → IsHolds (hold_on_demand h key v)
unfolding hold_on_demand
hold_on_demand-IsHolds h key v inv = elim (Option-cases (lookup key h.map)) [
  | inl new ↦
      rw (new, hold_on_demand)
        (evicted-IsHolds ((key, v) ∷ remove key h.map) (h.order ++ key ∷ [])
          (λ k.
            ground (arith, inserted-keys key k v h.map, member-append k key h.order, inv.keys k))
          (Distinct-append key h.order inv.distinct (ground (arith, inv.keys key, new)))
          (omega (arith, length-append h.order (key ∷ []), inv.bounded)))
  | inr (old, found) ↦
      rw (found, hold_on_demand)
        (record {
          keys = λ k.
              ground (arith, inserted-keys key k v h.map, inv.keys k, text_eq_iff key k, found);
          distinct = inv.distinct;
          bounded = inv.bounded;
        })
]

-- So does dropping a hold that has been served.
pub served-IsHolds : (h : Holds) (id : Text) → IsHolds h → IsHolds (served h id)
unfolding served
served-IsHolds h id inv = elim (Option-cases (lookup id h.map)) [
  | inl none_held ↦ rw (none_held, served) inv
  | inr (old, found) ↦
      rw (found, served)
        (record {
          keys =
              λ k. ground (arith, lookup-remove id k h.map, member-keep id k h.order, inv.keys k);
          distinct = Distinct-keep id h.order inv.distinct;
          bounded = omega (arith, length-keep-le (λ k. not (text_eq k id)) h.order, inv.bounded);
        })
]

-- A served blob is held no longer, and every other hold stays.
pub get-served :
    (h : Holds) (id k : Text) → get (served h id) k ≡ (if text_eq id k then none else get h k)
unfolding served
get-served h id k = elim (Option-cases (lookup id h.map)) [
  | inl none_held ↦ rw (none_held, served) (ground (arith, text_eq_iff id k, none_held))
  | inr (old, found) ↦ rw (found, served) (lookup-remove id k h.map)
]

new_hold-lookup :
    (m : List (Text × Hold)) (order : List Text) (key k : Text) (v : Hold)
    → member key order ≡ false
    → length order ≤ max_holds
    → lookup k (evict ((key, v) ∷ remove key m) (order ++ key ∷ [])).map ≡ (
        if text_eq key k
        then some v
        else if leb max_holds (length order) && member k (take 1 order)
        then none
        else lookup k m)
unfolding member
new_hold-lookup m [] key k v new b =
    rw (evict-within ((key, v) ∷ remove key m) (key ∷ []) (omega arith))
      (ground (arith, inserted-keys key k v m))
new_hold-lookup m (o ∷ order) key k v new b = elim (dec_lt (length (o ∷ order)) max_holds) [
  | yes room ↦
      rw
        (evict-within ((key, v) ∷ remove key m) (o ∷ (order ++ key ∷ []))
          (omega (arith, length-append order (key ∷ []))))
        (ground (arith, inserted-keys key k v m))
  | no full ↦
      rw
        (evict-one ((key, v) ∷ remove key m) o (order ++ key ∷ [])
          (omega (arith, length-append order (key ∷ []))))
        (ground (
          arith,
          inserted-keys key k v m,
          lookup-remove o k ((key, v) ∷ remove key m),
          text_eq_iff o k,
          text_eq_iff o key,
          text_eq_iff key k,
        ))
]

-- Whether `k` is the oldest key of a full ring that makes room for the new key `key`.
abbrev pub oldest_lost : Holds → Text → Text → Bool
oldest_lost h key k =
    not (is_some (get h key)) && (leb max_holds (length h.order) && member k (take 1 h.order))

-- After a blob is held it can be asked for, and so can every other blob that was held, but for the
-- oldest one where the ring was full and the blob is new.
pub get-hold_on_demand :
    (h : Holds) (key k : Text) (v : Hold)
    → IsHolds h
    → get (hold_on_demand h key v) k
      ≡ (if text_eq key k then some v else if oldest_lost h key k then none else get h k)
unfolding hold_on_demand
get-hold_on_demand h key k v inv = elim (Option-cases (lookup key h.map)) [
  | inl new ↦
      rw (new, hold_on_demand)
        (new_hold-lookup h.map h.order key k v (ground (arith, inv.keys key, new)) inv.bounded)
  | inr (old, found) ↦ rw (found, hold_on_demand) (inserted-keys key k v h.map)
]
