-- ===== src/Gui/Labels.antt =====
-- The texts and colours of clients/desktop/gui/src/main.rs: `hex`, `rgb24`, `reason_ko`,
-- `value_or_dash`, `kind_tag_label`, `truncate`, `chrono_lite_now`.
use copysync.Prelude.{
  ℕ, ◌+◌, ◌*◌, ◌/◌, ◌%◌, ◌^◌, ◌≡◌, [], ◌∷◌, ◌++◌, Text, codes, is_empty, text_eq, length, take, leb,
  arith, if◌then◌else◌,
}

-- `Color32`, without its alpha.
pub record Color : Type 0 where
  pub r : ℕ
  pub g : ℕ
  pub b : ℕ

-- `0xRRGGBB`; each `as u8` keeps the low byte.
unfoldable pub hex : ℕ → Color
hex rgb = record { r = rgb / 2 ^ 16 % 256; g = rgb / 2 ^ 8 % 256; b = rgb % 256 }

-- The parts do not overlap, so that `|` adds them.
unfoldable pub rgb24 : Color → ℕ
rgb24 c = c.r * 2 ^ 16 + c.g * 2 ^ 8 + c.b

rgb24-hex : (n : ℕ) → rgb24 (hex n) ≡ n % 2 ^ 24
unfolding rgb24 hex
rgb24-hex n = omega arith

unfoldable pub reason_ko : Text → Text
reason_ko label =
    if text_eq label (codes "password-like")
    then codes "비밀번호로 추정"
    else if text_eq label (codes "payment card")
    then codes "카드번호로 추정"
    else if text_eq label (codes "private key")
    then codes "개인 키"
    else if text_eq label (codes "OTP secret")
    then codes "OTP/2FA 비밀"
    else if text_eq label (codes "custom pattern")
    then codes "사용자 패턴"
    else label

unfoldable pub value_or_dash : Text → Text
value_or_dash s = if is_empty s then codes "—" else s

unfoldable pub kind_tag_label : Text → Text
kind_tag_label kind =
    if text_eq kind (codes "image")
    then codes "🖼 이미지"
    else if text_eq kind (codes "file")
    then codes "📎 파일"
    else codes "📝 텍스트"

unfoldable pub truncate : Text → ℕ → Text
truncate s max = if leb (length s) max then s else take max s ++ codes "…"

-- Two digits of a number below 100.
abbrev two : ℕ → Text
two n = (b'0' + n / 10) ∷ (b'0' + n % 10) ∷ []

-- "HH:MM:SS" of the seconds since the epoch.
unfoldable pub chrono_lite_now : ℕ → Text
chrono_lite_now secs =
    two (secs / 3600 % 24) ++ (b':' ∷ (two (secs / 60 % 60) ++ (b':' ∷ two (secs % 60))))
