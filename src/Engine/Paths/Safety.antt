-- ===== src/Engine/Paths/Safety.antt =====
-- Where a received file is stored.
use mathlib.Core.Option.{some-injective}
use copysync.Prelude.{
  ℕ, ◌≡◌, refl, subst, inl, inr, true, false, not, some, List, [], ◌∷◌, ◌++◌, Text, Bytes, codes,
  text_eq, all, keep, is_empty, starts_with, strip_prefix, length, ◌==◌, arith, Bool-cases,
  Option-cases, if◌then◌else◌,
}
use copysync.Privacy.Chars.{split, push_first}
use copysync.World.{Crates, Laws, is_hex, sha_hex}
use copysync.Blob.{Reply, ok, blob_id, get_blob}
use copysync.Blob.Integrity.{get_blob-blob_id}
use copysync.Engine.Paths.{
  last, is_component, components, path_file_name, trim_matches, trim_start_matches, received_name,
  join, ends_with_slash,
}

-- No slash, and neither empty, `.` nor `..`.
pub record IsSingleName (n : Text) : Type 0 where
  pub no_slash : all (λ c. not (c == b'/')) n ≡ true
  pub nonempty : is_empty n ≡ false
  pub not_dot : text_eq n (codes ".") ≡ false
  pub not_dots : text_eq n (codes "..") ≡ false

abbrev All {ℓ κ} : {A : Type ℓ} → (A → Type κ) → List A → Type κ
All P [] = Unit
All P (x ∷ xs) = P x × All P xs

abbrev NoSlash : Text → Type 0
NoSlash n = all (λ c. not (c == b'/')) n ≡ true

push-NoSlash :
    (c : ℕ) (parts : List Text)
    → (c == b'/') ≡ false
    → All NoSlash parts
    → All NoSlash (push_first c parts)
unfolding push_first all
push-NoSlash c [] h a = (ground arith, tt)
push-NoSlash c (p ∷ parts) h a = (ground arith, a.1)

split-NoSlash : (t : Text) → All NoSlash (split b'/' t)
unfolding split all
split-NoSlash [] = (refl, tt)
split-NoSlash (c ∷ t) = elim (Bool-cases (c == b'/')) [
  | inl slash ↦ rw slash (refl, split-NoSlash t)
  | inr other ↦ rw other (push-NoSlash c (split b'/' t) other (split-NoSlash t))
]

abbrev IsPart : Text → Type 0
IsPart n = NoSlash n × (is_component n ≡ true)

keep-IsPart : (parts : List Text) → All NoSlash parts → All IsPart (keep is_component parts)
unfolding keep
keep-IsPart [] a = tt
keep-IsPart (p ∷ parts) a = elim (Bool-cases (is_component p)) [
  | inl good ↦ rw good ((a.0, good), keep-IsPart parts a.1)
  | inr bad ↦ rw bad (keep-IsPart parts a.1)
]

last-All {ℓ κ} :
    {A : Type ℓ} (P : A → Type κ) (xs : List A) (x : A) → All P xs → last xs ≡ some x → P x
last-All P [] x a e = absurd (ground arith)
last-All P (y ∷ []) x a e = subst P (some-injective y x e) a.0
last-All P (y ∷ z ∷ xs) x a e = last-All P (z ∷ xs) x a.1 e

part-IsSingleName : (m : Text) → IsPart m → text_eq m (codes "..") ≡ false → IsSingleName m
unfolding is_component
part-IsSingleName m (no_slash, part) dots = record {
  no_slash = no_slash;
  nonempty = ground arith;
  not_dot = ground arith;
  not_dots = dots;
}

-- The result of `path_file_name`, where it has one.
file_name_cases :
    (path n : Text)
    → path_file_name path ≡ some n
    → (last (components path) ≡ some n) × (text_eq n (codes "..") ≡ false)
unfolding path_file_name
file_name_cases path n h = elim (Option-cases (last (components path))) [
  | inl missing ↦ absurd (ground (arith, missing))
  | inr (m, e) ↦ ground (arith, e)
]

path_file_name-IsSingleName : (path n : Text) → path_file_name path ≡ some n → IsSingleName n
unfolding components
path_file_name-IsSingleName path n h =
    let (e, dots) = file_name_cases path n h in
    part-IsSingleName n (last-All IsPart (components path) n (keep-IsPart _ (split-NoSlash path)) e)
      dots

hex-NoSlash : (t : Text) → all is_hex t ≡ true → NoSlash t
unfolding all
hex-NoSlash [] h = refl
hex-NoSlash (c ∷ t) h = ground (arith, hex-NoSlash t)

-- The digits of a digest do not begin with the prefix that is cut off.
trim-blob_id :
    (t : Text)
    → all is_hex t ≡ true
    → trim_start_matches (codes "sha256:" ++ t) (codes "sha256:") ≡ t
unfolding trim_start_matches trim_matches strip_prefix all
trim-blob_id [] h = refl
trim-blob_id (c ∷ t) h = ground arith

hex-IsSingleName : (t : Text) → all is_hex t ≡ true → length t ≡ 64 → IsSingleName t
unfolding all text_eq
hex-IsSingleName [] h n = absurd (omega arith)
hex-IsSingleName (c ∷ t) h n = record {
  no_slash = hex-NoSlash (c ∷ t) h;
  nonempty = refl;
  not_dot = ground arith;
  not_dots = ground arith;
}

fallback-IsSingleName :
    (w : Crates) (bytes : Bytes)
    → Laws w
    → IsSingleName (trim_start_matches (blob_id w bytes) (codes "sha256:"))
unfolding blob_id
fallback-IsSingleName w bytes laws =
    rw (trim-blob_id (sha_hex w bytes) (laws.hex-digest bytes))
      (hex-IsSingleName (sha_hex w bytes) (laws.hex-digest bytes) (laws.length-hex-digest bytes))

received_name-cases :
    (name id : Text)
    → IsSingleName (trim_start_matches id (codes "sha256:"))
    → IsSingleName (received_name name id)
unfolding received_name
received_name-cases name id fallback = elim (Option-cases (path_file_name name)) [
  | inl missing ↦ rw (missing, received_name) fallback
  | inr (n, e) ↦
      let single = path_file_name-IsSingleName name n e in
      rw (e, received_name, single.nonempty, single.not_dot, single.not_dots) single
]

join-single :
    (base n : Text)
    → IsSingleName n
    → join base n ≡ (if ends_with_slash base then base ++ n else base ++ b'/' ∷ n)
unfolding join starts_with all
join-single base [] v = absurd (cc v.nonempty)
join-single base (c ∷ n) v = ground (arith, v.no_slash)

-- Whatever name the sender gives, a file whose bytes have been fetched by their address is stored
-- in the downloads folder itself, under a single name that is not empty, `.` or `..`.
pub received_name-IsSingleName :
    (w : Crates) (downloads name id : Text) (reply : Reply) (bytes : Bytes)
    → Laws w
    → get_blob w id reply ≡ ok bytes
    → IsSingleName (received_name name id)
      × (join downloads (received_name name id) ≡ (
          if ends_with_slash downloads
          then downloads ++ received_name name id
          else downloads ++ b'/' ∷ received_name name id))
received_name-IsSingleName w downloads name id reply bytes laws fetched =
    let single = received_name-cases name id (
      subst (λ i. IsSingleName (trim_start_matches i (codes "sha256:")))
        (get_blob-blob_id w id reply bytes fetched) (fallback-IsSingleName w bytes laws)) in
    (single, join-single downloads (received_name name id) single)
