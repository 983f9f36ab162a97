-- ===== src/Gui/Prefs/RoundTrip.antt =====
-- The settings of the GUI over a restart.
use copysync.Prelude.{
  ℕ, ◌^◌, ◌<◌, ◌≡◌, refl, ap, not, if◌then◌else◌, true, false, Option, none, some, is_empty,
  text_eq, arith,
}
use copysync.Privacy.Chars.{trim}
use copysync.Protocol.Json.{get, as_str, as_num}
use copysync.Gui.Prefs.{
  Floats, FloatLaw, ThemeMode, system, dark, light, theme_as_str, theme_from_str, Prefs, load_prefs,
  save_prefs, read_prefs, default_prefs, default_hotkey, override, rgb_value, rgb_json,
}

theme_from_str-theme_as_str : (t : ThemeMode) → theme_from_str (theme_as_str t) ≡ t
unfolding theme_from_str theme_as_str text_eq
theme_from_str-theme_as_str system = refl
theme_from_str-theme_as_str dark = refl
theme_from_str-theme_as_str light = refl

-- A colour of 24 bits, if there is one.
abbrev pub IsRgb : Option ℕ → Type 0
IsRgb none = Unit
IsRgb (some c) = c < 2 ^ 24

rgb_value-rgb_json : (c : Option ℕ) → IsRgb c → override (rgb_value (rgb_json c)) some none ≡ c
unfolding as_num
rgb_value-rgb_json none h = refl
rgb_value-rgb_json (some c) h = ap some (omega arith)

-- The settings that the GUI saves are those that it loads the next time, if the shortcut is not
-- blank, the floats are numbers and the colours have 24 bits.
pub load_prefs-save_prefs :
    (f : Floats) (p : Prefs)
    → FloatLaw f
    → is_empty (trim p.hotkey) ≡ false
    → f.is_finite p.bg_zoom ≡ true
    → f.is_finite p.bg_brightness ≡ true
    → f.is_finite p.bg_blur ≡ true
    → f.is_finite p.card_opacity ≡ true
    → IsRgb p.accent_rgb
    → IsRgb p.fg_rgb
    → load_prefs f (some (some (save_prefs f p))) ≡ p
unfolding load_prefs save_prefs get as_str read_prefs default_prefs text_eq
load_prefs-save_prefs f p law named zoom brightness blur opacity accent fg =
    let theme = theme_from_str-theme_as_str p.theme in
    let hotkey : (if not (is_empty (trim p.hotkey)) then p.hotkey else default_hotkey) ≡ p.hotkey =
      rw named refl in
    let float =
      λ (d x : ℕ) (finite : f.is_finite x ≡ true). ap (λ o. override o (λ y. y) d) (law x finite) in
    let bg_zoom = float (f.lit 1) p.bg_zoom zoom in
    let bg_brightness = float (f.lit 1) p.bg_brightness brightness in
    let bg_blur = float (f.lit 0) p.bg_blur blur in
    let card_opacity = float (f.lit 1) p.card_opacity opacity in
    let accent_rgb = rgb_value-rgb_json p.accent_rgb accent in
    let fg_rgb = rgb_value-rgb_json p.fg_rgb fg in
    λ i. record {
      theme = theme i;
      hotkey = hotkey i;
      bg_path = p.bg_path;
      bg_zoom = bg_zoom i;
      bg_brightness = bg_brightness i;
      bg_blur = bg_blur i;
      card_opacity = card_opacity i;
      accent_rgb = accent_rgb i;
      fg_rgb = fg_rgb i;
    }
