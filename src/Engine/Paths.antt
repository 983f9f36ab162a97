-- ===== src/Engine/Paths.antt =====
-- What clients/desktop/core/src/engine.rs uses of Rust's `Path` on Unix, and its own `file_name`,
-- `mime_of` and the name of a received file.
pub mod Safety
use copysync.Prelude.{
  ℕ, zero, suc, Bool, true, false, not, ◌&&◌, ◌||◌, Option, none, some, List, [], ◌∷◌, ◌++◌, Text,
  codes, text_eq, is_empty, keep, starts_with, strip_prefix, length, ◌==◌, if◌then◌else◌,
}
use copysync.Privacy.Chars.{split, to_ascii_lowercase}

abbrev pub last {ℓ} : {A : Type ℓ} → List A → Option A
last [] = none
last (x ∷ []) = some x
last (x ∷ y ∷ xs) = last (y ∷ xs)

-- The components of a path; empty ones and `.` do not count.
unfoldable pub is_component : Text → Bool
is_component p = not (is_empty p) && not (text_eq p (codes "."))

unfoldable pub components : Text → List Text
components path = keep is_component (split b'/' path)

-- `Path::file_name`: the last component, unless it is `..`.
unfoldable pub path_file_name : Text → Option Text
path_file_name path = elim (last (components path)) [
  | none ↦ none
  | some n ↦ if text_eq n (codes "..") then none else some n
]

-- `file_name` of engine.rs
unfoldable pub file_name : Text → Text
file_name path = elim (path_file_name path) [ none ↦ codes "file" | some n ↦ n ]

-- What follows the last dot, if something stands before that dot.
after_dot : Text → Option Text
after_dot [] = none
after_dot (c ∷ t) = elim (after_dot t) [
  | some ext ↦ some ext
  | none ↦ if c == b'.' then some t else none
]

-- `Path::extension`
unfoldable pub extension : Text → Option Text
unfolding after_dot
extension path = elim (path_file_name path) [
  | none ↦ none
  | some [] ↦ none
  | some (◌∷◌ c t) ↦ after_dot t
]

one_of : Text → List Text → Bool
one_of t [] = false
one_of t (x ∷ xs) = text_eq t x || one_of t xs

unfoldable pub mime_of : Text → Text
unfolding one_of
mime_of path =
    let ext : Text = to_ascii_lowercase (elim (extension path) [ none ↦ [] | some e ↦ e ]) in
    if text_eq ext (codes "png")
    then codes "image/png"
    else if one_of ext (codes "jpg" ∷ codes "jpeg" ∷ [])
    then codes "image/jpeg"
    else if text_eq ext (codes "gif")
    then codes "image/gif"
    else if text_eq ext (codes "webp")
    then codes "image/webp"
    else if text_eq ext (codes "bmp")
    then codes "image/bmp"
    else if text_eq ext (codes "pdf")
    then codes "application/pdf"
    else if one_of ext (codes "txt" ∷ codes "md" ∷ codes "log" ∷ [])
    then codes "text/plain"
    else if text_eq ext (codes "zip")
    then codes "application/zip"
    else codes "application/octet-stream"

-- `Path::join`: an absolute path replaces the base.
unfoldable pub ends_with_slash : Text → Bool
ends_with_slash t = elim (last t) [ none ↦ true | some c ↦ c == b'/' ]

unfoldable pub join : Text → Text → Text
unfolding ends_with_slash
join base path =
    if starts_with path (codes "/")
    then path
    else if ends_with_slash base
    then base ++ path
    else base ++ b'/' ∷ path

-- `str::trim_start_matches`, with as many rounds as the text is long.
unfoldable pub trim_matches : ℕ → Text → Text → Text
trim_matches zero t p = t
trim_matches (suc fuel) t p = elim (strip_prefix t p) [
  | none ↦ t
  | some rest ↦ trim_matches fuel rest p
]

unfoldable pub trim_start_matches : Text → Text → Text
unfolding trim_matches
trim_start_matches t p = trim_matches (length t) t p

-- The name under which `apply_blob` stores a received file.
unfoldable pub received_name : Text → Text → Text
received_name name blob_id =
    let fallback = trim_start_matches blob_id (codes "sha256:") in
    elim (path_file_name name) [
      | none ↦ fallback
      | some n ↦
          if not (is_empty n) && not (text_eq n (codes ".")) && not (text_eq n (codes ".."))
          then n
          else fallback
    ]
