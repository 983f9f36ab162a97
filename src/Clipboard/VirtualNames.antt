-- ===== src/Clipboard/VirtualNames.antt =====
-- A group of descriptors, and the names that are read from it.
use copysync.Prelude.{
  ℕ, zero, suc, ◌+◌, ◌-◌, ◌*◌, ◌/◌, ◌%◌, min, ◌≤◌, ◌<◌, ◌≡◌, refl, sym, ap, ◌∙◌, Bool, true, false,
  ◌&&◌, ◌||◌, none, some, List, [], ◌∷◌, ◌++◌, Text, Bytes, all, is_empty, length, length-append,
  drop, leb, ltb, if◌then◌else◌, arith,
}
use mathlib.Core.List.{append_assoc}
use copysync.Clipboard.{
  decode_units, from_utf16_lossy, read_wide, read_names, le32, virtual_file_names, desc_size,
  name_offset,
}

-- `char::encode_utf16`, of a Unicode scalar value.
abbrev pub units_of : ℕ → List ℕ
units_of c =
    if ltb c 0x10000
    then c ∷ []
    else (0xD800 + (c - 0x10000) / 0x400) ∷ (0xDC00 + (c - 0x10000) % 0x400) ∷ []

abbrev pub encode_utf16 : Text → List ℕ
encode_utf16 [] = []
encode_utf16 (c ∷ t) = units_of c ++ encode_utf16 t

-- A scalar value other than zero.
abbrev pub is_scalar : ℕ → Bool
is_scalar c = ltb 0 c && (ltb c 0xD800 || (leb 0xE000 c && ltb c 0x110000))

decoded :
    (c : ℕ) (us : List ℕ)
    → is_scalar c ≡ true
    → decode_units none (units_of c ++ us) ≡ c ∷ decode_units none us
unfolding decode_units
decoded c us ok = ground arith

decoded_all : (t : Text) → all is_scalar t ≡ true → decode_units none (encode_utf16 t) ≡ t
unfolding decode_units all
decoded_all [] ok = refl
decoded_all (c ∷ t) ok = ground (arith, decoded c (encode_utf16 t), decoded_all t)

nonzero : (t : Text) → all is_scalar t ≡ true → all (λ u. ltb 0 u) (encode_utf16 t) ≡ true
unfolding all
nonzero [] ok = refl
nonzero (c ∷ t) ok = ground (arith, nonzero t)

not_empty : (t : Text) → is_empty t ≡ false → is_empty (encode_utf16 t) ≡ false
not_empty [] full = full
not_empty (c ∷ t) full = ground arith

abbrev pub le_bytes : List ℕ → Bytes
le_bytes [] = []
le_bytes (u ∷ us) = u % 256 ∷ u / 256 ∷ le_bytes us

length-le_bytes : (us : List ℕ) → length (le_bytes us) ≡ 2 * length us
length-le_bytes [] = refl
length-le_bytes (u ∷ us) = omega (arith, length-le_bytes us)

read_wide-le_bytes :
    (n : ℕ) (us : List ℕ) (rest : Bytes)
    → all (λ u. ltb 0 u) us ≡ true
    → length us < n
    → read_wide n (le_bytes us ++ 0 ∷ 0 ∷ rest) ≡ us
unfolding read_wide all
read_wide-le_bytes zero us rest full short = absurd (omega (arith, short))
read_wide-le_bytes (suc n) [] rest full short = refl
read_wide-le_bytes (suc n) (u ∷ us) rest full short = ground (arith, read_wide-le_bytes n us rest)

-- A FILEDESCRIPTORW: what stands before the name, the name, and what stands behind its zero.
pub record Desc : Type 0 where
  pub header : Bytes
  pub name : Text
  pub padding : Bytes

abbrev pub bytes_of : Desc → Bytes
bytes_of d = d.header ++ (le_bytes (encode_utf16 d.name) ++ 0 ∷ 0 ∷ d.padding)

-- The sizes fit, and the name is text of at least one and at most 259 units.
abbrev pub IsDesc : Desc → Type 0
IsDesc d =
    (length d.header ≡ name_offset)
    × (all is_scalar d.name ≡ true)
    × (is_empty d.name ≡ false)
    × (length (encode_utf16 d.name) < 260)
    × (2 * length (encode_utf16 d.name) + 2 + length d.padding ≡ 520)

abbrev pub AreDescs : List Desc → Type 0
AreDescs [] = Unit {0}
AreDescs (d ∷ ds) = IsDesc d × AreDescs ds

abbrev pub bodies : List Desc → Bytes → Bytes
bodies [] later = later
bodies (d ∷ ds) later = bytes_of d ++ bodies ds later

none_left : (n : ℕ) → drop {A = ℕ} n [] ≡ []
none_left zero = refl
none_left (suc n) = refl

drop-add : (m n : ℕ) (xs : Bytes) → drop (m + n) xs ≡ drop n (drop m xs)
drop-add zero n xs = ap (λ k. drop k xs) (omega arith)
drop-add (suc m) n [] = none_left (suc m + n) ∙ sym (none_left n)
drop-add (suc m) n (x ∷ xs) =
    let one : suc m + n ≡ suc (m + n) = omega arith in
    ap (λ k. drop k (x ∷ xs)) one ∙ drop-add m n xs

drop-append : (n : ℕ) (xs ys : Bytes) → length xs ≡ n → drop n (xs ++ ys) ≡ ys
drop-append zero [] ys long = refl
drop-append zero (x ∷ xs) ys long = absurd (omega (arith, long))
drop-append (suc n) [] ys long = absurd (omega (arith, long))
drop-append (suc n) (x ∷ xs) ys long = drop-append n xs ys (omega (arith, long))

length-bytes_of : (d : Desc) → IsDesc d → length (bytes_of d) ≡ desc_size
length-bytes_of d (head, ok, full, short, size) = omega (
  arith,
  head,
  size,
  length-append d.header (le_bytes (encode_utf16 d.name) ++ 0 ∷ 0 ∷ d.padding),
  length-append (le_bytes (encode_utf16 d.name)) (0 ∷ 0 ∷ d.padding),
  length-le_bytes (encode_utf16 d.name),
)

wide-bytes_of :
    (d : Desc) (rest : Bytes)
    → IsDesc d
    → read_wide 260 (drop name_offset (bytes_of d ++ rest)) ≡ encode_utf16 d.name
wide-bytes_of d rest (head, ok, full, short, size) =
    let us = encode_utf16 d.name in
    let flat : bytes_of d ++ rest ≡ d.header ++ (le_bytes us ++ 0 ∷ 0 ∷ (d.padding ++ rest)) =
      append_assoc d.header (le_bytes us ++ 0 ∷ 0 ∷ d.padding) rest
      ∙ ap (λ bs. d.header ++ bs) (append_assoc (le_bytes us) (0 ∷ 0 ∷ d.padding) rest) in
    ap (λ bs. read_wide 260 (drop name_offset bs)) flat
    ∙ ap (read_wide 260) (drop-append name_offset d.header _ head)
    ∙ read_wide-le_bytes 260 us (d.padding ++ rest) (nonzero d.name ok) short

abbrev pub names_of : List Desc → List Text
names_of [] = []
names_of (d ∷ ds) = d.name ∷ names_of ds

read_names-bodies :
    (ds : List Desc) (i : ℕ) (buf later : Bytes)
    → drop (4 + i * desc_size) buf ≡ bodies ds later
    → AreDescs ds
    → read_names (length ds) i buf ≡ names_of ds
unfolding read_names from_utf16_lossy
read_names-bodies [] i buf later at ok = refl
read_names-bodies (d ∷ ds) i buf later at (here, ok) =
    let us = encode_utf16 d.name in
    let body = bodies ds later in
    let wide : read_wide 260 (drop (4 + i * desc_size + name_offset) buf) ≡ us =
      ap (read_wide 260) (drop-add (4 + i * desc_size) name_offset buf)
      ∙ ap (λ bs. read_wide 260 (drop name_offset bs)) at
      ∙ wide-bytes_of d body here in
    let step : 4 + suc i * desc_size ≡ 4 + i * desc_size + desc_size = omega arith in
    let next : drop (4 + suc i * desc_size) buf ≡ body =
      ap (λ k. drop k buf) step
      ∙ drop-add (4 + i * desc_size) desc_size buf
      ∙ ap (drop desc_size) at
      ∙ drop-append desc_size (bytes_of d) body (length-bytes_of d here) in
    let rest = read_names-bodies ds (suc i) buf later next ok in
    let later_names = read_names (length ds) (suc i) buf in
    ap (λ ws. if is_empty ws then later_names else from_utf16_lossy ws ∷ later_names) wide
    ∙ ap (λ b. if b then later_names else from_utf16_lossy us ∷ later_names)
        (not_empty d.name here.2)
    ∙ (λ j. decoded_all d.name here.1 j ∷ rest j)

-- A FILEGROUPDESCRIPTORW: the count in four bytes, the descriptors, and what may stand behind.
abbrev pub group : List Desc → Bytes → Bytes
group ds later = length ds ∷ 0 ∷ 0 ∷ 0 ∷ bodies ds later

-- The names of the virtual files that an application puts on the clipboard are those that are read,
-- in order: at least one file and at most 64, each with the sizes of its descriptor and a name of 1
-- to 259 UTF-16 units without a zero; what stands behind the descriptors does not matter.
pub virtual_file_names-group :
    (d : Desc) (ds : List Desc) (later : Bytes)
    → AreDescs (d ∷ ds)
    → length (d ∷ ds) ≤ 64
    → virtual_file_names (group (d ∷ ds) later) ≡ some (names_of (d ∷ ds))
unfolding virtual_file_names
virtual_file_names-group d ds later ok few =
    let buf = group (d ∷ ds) later in
    let count : min (le32 buf) 64 ≡ length (d ∷ ds) = omega (arith, few) in
    let long : ltb (length buf) 4 ≡ false = ground arith in
    let read : read_names (min (le32 buf) 64) 0 buf ≡ names_of (d ∷ ds) =
      ap (λ n. read_names n 0 buf) count ∙ read_names-bodies (d ∷ ds) 0 buf later refl ok in
    ap
      (λ b.
        if b
        then none
        else if is_empty (read_names (min (le32 buf) 64) 0 buf)
        then none
        else some (read_names (min (le32 buf) 64) 0 buf))
      long
    ∙ ap (λ ns. if is_empty ns then none else some ns) read
