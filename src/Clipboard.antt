-- ===== src/Clipboard.antt =====
-- clients/desktop/core/src/clipboard.rs: the retry of the open, the files on the clipboard, and the
-- names of virtual files out of a FILEGROUPDESCRIPTORW. What the system answers is an argument.
pub mod Access
pub mod VirtualNames
use copysync.Prelude.{
  ℕ, zero, suc, ◌+◌, ◌-◌, ◌*◌, ◌/◌, ◌%◌, ◌^◌, min, Bool, true, false, ◌&&◌, Option, none, some,
  List, [], ◌∷◌, ◌++◌, Text, Bytes, is_empty, length, drop, leb, ltb, ◌==◌, if◌then◌else◌,
}

abbrev pub open_attempts : ℕ
open_attempts = 5

-- What the attempts came to, with the number of naps between them.
pub data Attempt {ℓ} (A : Type ℓ) : Type ℓ where
  succeeded : A → ℕ → Attempt A
  failed : Text → ℕ → Attempt A

-- An answer of the system: a value or an error.
pub data OsAnswer {ℓ} (A : Type ℓ) : Type ℓ where
  yes : A → OsAnswer A
  no : Text → OsAnswer A

module _ {ℓ} {A : Type ℓ} where
  abbrev pub tried : OsAnswer A → ℕ → Attempt A → Attempt A
  tried (OsAnswer.yes a) naps again = succeeded a naps
  tried (OsAnswer.no e) naps again = again

  abbrev pub last_try : OsAnswer A → ℕ → Attempt A
  last_try (OsAnswer.yes a) naps = succeeded a naps
  last_try (OsAnswer.no e) naps = failed e naps

  -- The attempts from one on, of which `left` more may follow; each but the last naps after it.
  unfoldable pub attempt_from : (ℕ → OsAnswer A) → ℕ → ℕ → Attempt A
  attempt_from answer n zero = last_try (answer n) n
  attempt_from answer n (suc left) = tried (answer n) n (attempt_from answer (suc n) left)

  unfoldable pub with_attempts : (ℕ → OsAnswer A) → Attempt A
  unfolding attempt_from
  with_attempts answer = attempt_from answer 0 (open_attempts - 1)

-- `get_files` on Windows: whether there is a list, and what reading it answers.
abbrev pub some_files : Attempt (List Text) → Option (List Text)
some_files (succeeded [] naps) = none
some_files (succeeded (f ∷ fs) naps) = some (f ∷ fs)
some_files (failed e naps) = none

unfoldable pub get_files : Bool → (ℕ → OsAnswer (List Text)) → Option (List Text)
get_files available answer = if available then some_files (with_attempts answer) else none

-- `String::from_utf16_lossy`: what a unit gives after a high surrogate that waits, if any, and the
-- one that waits then.
abbrev pub is_high : ℕ → Bool
is_high u = leb 0xD800 u && ltb u 0xDC00

abbrev pub is_low : ℕ → Bool
is_low u = leb 0xDC00 u && ltb u 0xE000

abbrev pub lone_unit : ℕ → Text × Option ℕ
lone_unit u =
    if is_high u then ([], some u) else if is_low u then (0xFFFD ∷ [], none) else (u ∷ [], none)

abbrev pub next_unit : Option ℕ → ℕ → Text × Option ℕ
next_unit none u = lone_unit u
next_unit (some h) u =
    if is_low u
    then ((0x10000 + (h - 0xD800) * 0x400 + (u - 0xDC00)) ∷ [], none)
    else (0xFFFD ∷ (lone_unit u).0, (lone_unit u).1)

unfoldable pub decode_units : Option ℕ → List ℕ → Text
decode_units none [] = []
decode_units (some h) [] = 0xFFFD ∷ []
decode_units w (u ∷ us) = (next_unit w u).0 ++ decode_units (next_unit w u).1 us

unfoldable pub from_utf16_lossy : List ℕ → Text
unfolding decode_units
from_utf16_lossy us = decode_units none us

-- The units up to a zero, the end or the number given.
unfoldable pub read_wide : ℕ → Bytes → List ℕ
read_wide zero bs = []
read_wide (suc n) [] = []
read_wide (suc n) (a ∷ []) = []
read_wide (suc n) (a ∷ b ∷ bs) =
    let rest = read_wide n bs in if a + 256 * b == 0 then [] else (a + 256 * b) ∷ rest

abbrev pub desc_size : ℕ
desc_size = 592

abbrev pub name_offset : ℕ
name_offset = 72

-- The names of `n` descriptors from the `i`th on.
unfoldable pub read_names : ℕ → ℕ → Bytes → List Text
read_names zero i buf = []
read_names (suc n) i buf =
    let wide = read_wide 260 (drop (4 + i * desc_size + name_offset) buf) in
    let rest = read_names n (suc i) buf in
    if is_empty wide then rest else from_utf16_lossy wide ∷ rest

-- `u32::from_le_bytes` of the first four bytes.
abbrev pub le32 : Bytes → ℕ
le32 (a ∷ b ∷ c ∷ d ∷ bs) = a + 256 * b + 65536 * c + 16777216 * d
le32 bs = 0

unfoldable pub virtual_file_names : Bytes → Option (List Text)
virtual_file_names buf =
    let names = read_names (min (le32 buf) 64) 0 buf in
    if ltb (length buf) 4 then none else if is_empty names then none else some names
