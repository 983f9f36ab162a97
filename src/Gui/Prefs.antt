-- ===== src/Gui/Prefs.antt =====
-- `ThemeMode`, `Prefs`, `load_prefs` and `save_prefs` of clients/desktop/gui/src/main.rs. The file
-- holds a JSON value. A float stands for its bits; what is done with it is an argument.
pub mod RoundTrip
use copysync.Prelude.{
  ℕ, ◌%◌, ◌^◌, Bool, true, false, not, Option, none, some, Text, codes, is_empty, text_eq, ◌≡◌,
  if◌then◌else◌,
}
use Prim.Native.String.{String}
use copysync.Privacy.Chars.{trim}
use copysync.Protocol.Json.{
  Json, null, num, str, obj, Fields, end, field, get, as_str, as_num, and_then,
}

-- serde_json and the floats of the language, by their bits: `json!` of an `f32`, `as_f64` with
-- `as f32`, whether a float is a number, a whole literal, and what the wallpaper computes.
pub record Floats : Type 0 where
  pub to_json : ℕ → Json
  pub as_f32 : Json → Option ℕ
  pub is_finite : ℕ → Bool
  pub lit : ℕ → ℕ
  pub clamp : ℕ → ℕ → ℕ → ℕ
  pub mul : ℕ → ℕ → ℕ
  pub round : ℕ → ℕ

-- A number that is written is read back.
abbrev pub FloatLaw : Floats → Type 0
FloatLaw f = (x : ℕ) → f.is_finite x ≡ true → f.as_f32 (f.to_json x) ≡ some x

pub data ThemeMode : Type 0 where
  system dark light : ThemeMode

unfoldable pub theme_as_str : ThemeMode → Text
theme_as_str system = codes "system"
theme_as_str dark = codes "dark"
theme_as_str light = codes "light"

unfoldable pub theme_from_str : Text → ThemeMode
theme_from_str s =
    if text_eq s (codes "dark") then dark else if text_eq s (codes "light") then light else system

pub record Prefs : Type 0 where
  pub theme : ThemeMode
  pub hotkey : Text
  pub bg_path : Text
  pub bg_zoom : ℕ
  pub bg_brightness : ℕ
  pub bg_blur : ℕ
  pub card_opacity : ℕ
  pub accent_rgb : Option ℕ
  pub fg_rgb : Option ℕ

abbrev pub default_hotkey : Text
default_hotkey = codes "Ctrl+Shift+V"

-- A value that is there replaces the one before it.
abbrev pub override {ℓ κ} : {A : Type ℓ} {B : Type κ} → Option A → (A → B) → B → B
override none f b = b
override (some a) f b = f a

-- `(c as u32) & 0x00FF_FFFF`
abbrev pub rgb_mask : ℕ → ℕ
rgb_mask c = c % 2 ^ 32 % 2 ^ 24

abbrev pub rgb_json : Option ℕ → Json
rgb_json none = null
rgb_json (some c) = num c

-- A colour of a JSON value.
abbrev pub rgb_value : Json → Option ℕ
rgb_value j = and_then (as_num j) (λ c. some (rgb_mask c))

module _ (f : Floats) where
  unfoldable pub default_prefs : Prefs
  default_prefs = record {
    theme = system;
    hotkey = default_hotkey;
    bg_path = codes "";
    bg_zoom = f.lit 1;
    bg_brightness = f.lit 1;
    bg_blur = f.lit 0;
    card_opacity = f.lit 1;
    accent_rgb = none;
    fg_rgb = none;
  }

  abbrev text_at : String → Json → Option Text
  text_at k v = and_then (get (codes k) v) as_str

  abbrev float_at : String → Json → Option ℕ
  float_at k v = and_then (get (codes k) v) f.as_f32

  abbrev rgb_at : String → Json → Option ℕ
  rgb_at k v = and_then (get (codes k) v) rgb_value

  -- The fields of the file over the defaults.
  unfoldable pub read_prefs : Json → Prefs → Prefs
  read_prefs v p = record {
    theme = override (text_at "theme" v) theme_from_str p.theme;
    hotkey =
        override (text_at "hotkey" v) (λ h. if not (is_empty (trim h)) then h else p.hotkey)
          p.hotkey;
    bg_path = override (text_at "bg_path" v) (λ t. t) p.bg_path;
    bg_zoom = override (float_at "bg_zoom" v) (λ x. x) p.bg_zoom;
    bg_brightness = override (float_at "bg_brightness" v) (λ x. x) p.bg_brightness;
    bg_blur = override (float_at "bg_blur" v) (λ x. x) p.bg_blur;
    card_opacity = override (float_at "card_opacity" v) (λ x. x) p.card_opacity;
    accent_rgb = override (rgb_at "accent_rgb" v) some p.accent_rgb;
    fg_rgb = override (rgb_at "fg_rgb" v) some p.fg_rgb;
  }

  -- The file: not readable, or its JSON, which may not parse.
  unfoldable pub load_prefs : Option (Option Json) → Prefs
  unfolding read_prefs default_prefs
  load_prefs none = default_prefs
  load_prefs (some none) = default_prefs
  load_prefs (some (some v)) = read_prefs v default_prefs

  unfoldable pub save_prefs : Prefs → Json
  save_prefs p = obj (
      field (codes "theme") (str (theme_as_str p.theme)) (
        field (codes "hotkey") (str p.hotkey) (
          field (codes "bg_path") (str p.bg_path) (
            field (codes "bg_zoom") (f.to_json p.bg_zoom) (
              field (codes "bg_brightness") (f.to_json p.bg_brightness) (
                field (codes "bg_blur") (f.to_json p.bg_blur) (
                  field (codes "card_opacity") (f.to_json p.card_opacity) (
                    field (codes "accent_rgb") (rgb_json p.accent_rgb)
                      (field (codes "fg_rgb") (rgb_json p.fg_rgb) end)))))))))
