-- ===== src/Gui/Wallpaper.antt =====
-- `BgImage` and `refresh_wallpaper` of clients/desktop/gui/src/main.rs. What `decode_wallpaper`
-- makes of the file is an argument.
pub mod Cache
use copysync.Prelude.{
  ℕ, ◌==◌, Bool, true, false, not, ◌&&◌, Option, none, some, [], Text, Bytes, is_empty, text_eq,
  if◌then◌else◌,
}
use copysync.Gui.Prefs.{Floats, Prefs}

-- The pixels and their dimensions.
pub record Texture : Type 0 where
  pub rgba : Bytes
  pub width : ℕ
  pub height : ℕ

-- What a texture was built from: the path, and the brightness and blur in steps.
pub record Key : Type 0 where
  pub path : Text
  pub brightness : ℕ
  pub blur : ℕ

pub record BgImage : Type 0 where
  pub path : Text
  pub zoom : ℕ
  pub brightness : ℕ
  pub blur : ℕ
  pub card_opacity : ℕ
  pub texture : Option Texture
  pub built_from : Option Key

abbrev pub is_some {ℓ} : {A : Type ℓ} → Option A → Bool
is_some none = false
is_some (some a) = true

unfoldable pub from_prefs : Prefs → BgImage
from_prefs p = record {
  path = p.bg_path;
  zoom = p.bg_zoom;
  brightness = p.bg_brightness;
  blur = p.bg_blur;
  card_opacity = p.card_opacity;
  texture = none;
  built_from = none;
}

unfoldable pub clear : BgImage → BgImage
clear bg = record bg { path = []; texture = none; built_from = none }

unfoldable pub has_wallpaper : BgImage → Bool
has_wallpaper bg = not (is_empty bg.path) && is_some bg.texture

abbrev pub key_eq : Key → Key → Bool
key_eq a b = text_eq a.path b.path && (a.brightness == b.brightness && a.blur == b.blur)

-- What the log says.
pub data BgNote : Type 0 where
  applied : ℕ → ℕ → BgNote
  broken : Text → BgNote

-- The file, decoded: the texture, or why there is none.
pub data Decoded : Type 0 where
  pixels : Texture → Decoded
  undecodable : Text → Decoded

module _ (f : Floats) where
  unfoldable pub decode_key : BgImage → Key
  decode_key bg = record {
    path = bg.path;
    brightness = f.round (f.mul (f.clamp bg.brightness (f.lit 0) (f.lit 4)) (f.lit 100));
    blur = f.round (f.mul (f.clamp bg.blur (f.lit 0) (f.lit 40)) (f.lit 10));
  }

  unfoldable pub needs_rebuild : BgImage → Bool
  needs_rebuild bg =
      if is_empty bg.path
      then is_some bg.texture
      else elim bg.built_from [ none ↦ true | some key ↦ not (key_eq key (decode_key bg)) ]

  -- `decode_wallpaper` and the upload of what it gives.
  unfoldable pub rebuild : Decoded → BgImage → Option BgNote × BgImage
  rebuild (pixels t) bg = (
    some (applied t.width t.height),
    record bg { texture = some t; built_from = some (decode_key bg) },
  )
  rebuild (undecodable why) bg =
      (some (broken why), record bg { texture = none; built_from = some (decode_key bg) })

  unfoldable pub refresh_wallpaper : Decoded → BgImage → Option BgNote × BgImage
  refresh_wallpaper decoded bg =
      if not (needs_rebuild bg)
      then (none, bg)
      else if is_empty bg.path
      then (none, record bg { texture = none; built_from = none })
      else rebuild decoded bg
