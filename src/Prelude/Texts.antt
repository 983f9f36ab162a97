-- ===== src/Prelude/Texts.antt =====
-- Texts as lists of code points (a Rust `char` each) and byte strings as lists of numbers.
use Prim.Native.Nat.{ℕ, ◌+◌, ◌/◌, ◌%◌}
use Prim.Native.Char.{code}
use Prim.Native.String.{String}
use mathlib.Core.Path.{◌≡◌, refl}
use mathlib.Core.Logic.{◌↔◌}
use mathlib.Core.Bool.{Bool, true, false, ◌&&◌, ◌||◌}
use mathlib.Core.List.{List, [], ◌∷◌, ◌++◌, append_assoc}
use mathlib.Core.Option.{Option, none, some}
use native.Mathlib.Omega.{arith}
use copysync.Prelude.Tests.{ltb, ◌==◌, if◌then◌else◌}
use copysync.Prelude.Lists.{length, all}

abbrev pub Text : Type 0
Text = List ℕ

abbrev pub Bytes : Type 0
Bytes = List ℕ

-- The code points of a literal.
abbrev pub codes : String → Text
codes String.[] = []
codes (String.◌∷◌ c s) = code c ∷ codes s

unfoldable pub text_eq : Text → Text → Bool
text_eq [] [] = true
text_eq [] (d ∷ t) = false
text_eq (c ∷ s) [] = false
text_eq (c ∷ s) (d ∷ t) = c == d && text_eq s t

text_eq→eq : (s t : Text) → text_eq s t ≡ true → s ≡ t
unfolding text_eq
text_eq→eq [] [] h = refl
text_eq→eq [] (d ∷ t) h = cc
text_eq→eq (c ∷ s) [] h = cc
text_eq→eq (c ∷ s) (d ∷ t) h = ground (arith, text_eq→eq s t)

pub text_eq_refl : (s : Text) → text_eq s s ≡ true
unfolding text_eq
text_eq_refl [] = refl
text_eq_refl (c ∷ s) = ground (arith, text_eq_refl s)

pub text_eq_iff : (s t : Text) → (text_eq s t ≡ true) ↔ (s ≡ t)
text_eq_iff s t = (text_eq→eq s t, λ e. rw e (text_eq_refl t))

-- `str::starts_with` with a text.
unfoldable pub starts_with : Text → Text → Bool
starts_with t [] = true
starts_with [] (p ∷ ps) = false
starts_with (c ∷ t) (p ∷ ps) = c == p && starts_with t ps

-- `str::contains` with a text.
unfoldable pub contains : Text → Text → Bool
unfolding starts_with
contains [] p = starts_with [] p
contains (c ∷ t) p = starts_with (c ∷ t) p || contains t p

-- `str::strip_prefix`.
unfoldable pub strip_prefix : Text → Text → Option Text
strip_prefix t [] = some t
strip_prefix [] (p ∷ ps) = none
strip_prefix (c ∷ t) (p ∷ ps) = if c == p then strip_prefix t ps else none

-- `str::trim_end_matches` with a character.
unfoldable pub trim_end_matches : ℕ → Text → Text
unfolding all
trim_end_matches d [] = []
trim_end_matches d (c ∷ t) = if all (λ e. e == d) (c ∷ t) then [] else c ∷ trim_end_matches d t

-- The UTF-8 bytes of a code point, and of a text (`str::as_bytes`).
unfoldable pub utf8_char : ℕ → Bytes
utf8_char c =
    if ltb c 0x80
    then c ∷ []
    else if ltb c 0x800
    then (0xC0 + c / 64) ∷ (0x80 + c % 64) ∷ []
    else if ltb c 0x10000
    then (0xE0 + c / 4096) ∷ (0x80 + c / 64 % 64) ∷ (0x80 + c % 64) ∷ []
    else (0xF0 + c / 262144) ∷ (0x80 + c / 4096 % 64) ∷ (0x80 + c / 64 % 64) ∷ (0x80 + c % 64) ∷ []

unfoldable pub utf8 : Text → Bytes
unfolding utf8_char
utf8 [] = []
utf8 (c ∷ t) = utf8_char c ++ utf8 t

-- `str::len`: a length in bytes.
unfoldable pub text_len : Text → ℕ
unfolding utf8
text_len t = length (utf8 t)

pub strip_prefix-append : (p t : Text) → strip_prefix (p ++ t) p ≡ some t
unfolding strip_prefix
strip_prefix-append [] t = refl
strip_prefix-append (c ∷ p) t = ground (arith, strip_prefix-append p t)

pub utf8-append : (s t : Text) → utf8 (s ++ t) ≡ utf8 s ++ utf8 t
unfolding utf8
utf8-append [] t = refl
utf8-append (c ∷ s) t = rw (utf8-append s t, append_assoc)

starts_with-all :
    (f : ℕ → Bool) (t p : Text) → starts_with t p ≡ true → all f t ≡ true → all f p ≡ true
unfolding starts_with all
starts_with-all f t [] h k = refl
starts_with-all f [] (d ∷ p) h k = cc
starts_with-all f (c ∷ t) (d ∷ p) h k = ground (arith, starts_with-all f t p)

-- A text whose characters all pass a test holds no other text.
pub contains-all :
    (f : ℕ → Bool) (t p : Text) → contains t p ≡ true → all f t ≡ true → all f p ≡ true
unfolding contains all
contains-all f [] p h k = starts_with-all f [] p h k
contains-all f (c ∷ t) p h k = ground (arith, starts_with-all f (c ∷ t) p, contains-all f t p)
