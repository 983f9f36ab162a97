-- ===== src/Gui/Wallpaper/Cache.antt =====
-- How often the wallpaper is decoded.
use copysync.Prelude.{
  true-ne-false, ◌≡◌, sym, ◌∙◌, refl, ap, inl, inr, ◌⊎◌, Bool, true, false, not, none, some,
  is_empty, text_eq_refl, Bool-cases, Option-cases, arith,
}
use copysync.Gui.Prefs.{Floats}
use copysync.Gui.Wallpaper.{
  Key, BgImage, key_eq, Decoded, pixels, undecodable, decode_key, needs_rebuild, rebuild,
  refresh_wallpaper, has_wallpaper,
}

key_eq_refl : (k : Key) → key_eq k k ≡ true
key_eq_refl k = ground (arith, text_eq_refl k.path)

not-false : (b : Bool) → not b ≡ false → b ≡ true
not-false true h = refl
not-false false h = cc

module _ (f : Floats) where
  rebuild-needs_rebuild :
      (decoded : Decoded) (bg : BgImage)
      → is_empty bg.path ≡ false
      → needs_rebuild f (rebuild f decoded bg).1 ≡ false
  unfolding rebuild needs_rebuild decode_key
  rebuild-needs_rebuild (pixels t) bg named = rw (named, key_eq_refl (decode_key f bg)) refl
  rebuild-needs_rebuild (undecodable why) bg named = rw (named, key_eq_refl (decode_key f bg)) refl

  fresh-refresh_wallpaper :
      (later : Decoded) (bg : BgImage)
      → needs_rebuild f bg ≡ false
      → refresh_wallpaper f later bg ≡ (none, bg)
  unfolding refresh_wallpaper
  fresh-refresh_wallpaper later bg fresh = rw (refresh_wallpaper, fresh) refl

  cleared-fresh :
      (bg : BgImage)
      → is_empty bg.path ≡ true
      → needs_rebuild f (record bg { texture = none; built_from = none }) ≡ false
  unfolding needs_rebuild
  cleared-fresh bg blank = rw blank refl

  needs_rebuild-refresh_wallpaper :
      (decoded : Decoded) (bg : BgImage)
      → needs_rebuild f (refresh_wallpaper f decoded bg).1 ≡ false
  unfolding refresh_wallpaper
  needs_rebuild-refresh_wallpaper decoded bg = elim (Bool-cases (needs_rebuild f bg)) [
    | inr fresh ↦ ap (λ r. needs_rebuild f r.1) (fresh-refresh_wallpaper decoded bg fresh) ∙ fresh
    | inl stale ↦ elim (Bool-cases (is_empty bg.path)) [
      | inl blank ↦
          let cleared : refresh_wallpaper f decoded bg
              ≡ (none, record bg { texture = none; built_from = none }) =
            rw (refresh_wallpaper, stale, blank) refl in
          ap (λ r. needs_rebuild f r.1) cleared ∙ cleared-fresh bg blank
      | inr named ↦
          let rebuilt : refresh_wallpaper f decoded bg ≡ rebuild f decoded bg =
            rw (refresh_wallpaper, stale, named) refl in
          ap (λ r. needs_rebuild f r.1) rebuilt ∙ rebuild-needs_rebuild decoded bg named
    ]
  ]

  built :
      (bg : BgImage)
      → needs_rebuild f bg ≡ false
      → (has_wallpaper bg ≡ false)
        ⊎ ((key : Key) × (bg.built_from ≡ some key) × (key_eq key (decode_key f bg) ≡ true))
  unfolding needs_rebuild has_wallpaper decode_key
  built bg fresh = elim (Bool-cases (is_empty bg.path)) [
    | inl blank ↦ inl (rw blank refl)
    | inr named ↦ elim (Option-cases bg.built_from) [
      | inl never ↦
          let stale : needs_rebuild f bg ≡ true = rw (needs_rebuild, named, never) refl in
          absurd (true-ne-false (sym stale ∙ fresh))
      | inr (key, from) ↦
          let same : needs_rebuild f bg ≡ not (key_eq key (decode_key f bg)) =
            rw (needs_rebuild, named, from) refl in
          inr (key, from, not-false _ (sym same ∙ fresh))
    ]
  ]

  -- After a frame has refreshed the wallpaper nothing is left to rebuild, also where the image
  -- could not be decoded, and the next frame changes nothing, whatever the file holds by then. A
  -- wallpaper that is shown was then built from the present inputs.
  pub refresh_wallpaper-needs_rebuild :
      (decoded later : Decoded) (bg : BgImage)
      → let next = (refresh_wallpaper f decoded bg).1 in
        (needs_rebuild f next ≡ false)
        × (refresh_wallpaper f later next ≡ (none, next))
        × ((has_wallpaper next ≡ false)
            ⊎ ((key : Key) × (next.built_from ≡ some key)
                × (key_eq key (decode_key f next) ≡ true)))
  refresh_wallpaper-needs_rebuild decoded later bg =
      let next = (refresh_wallpaper f decoded bg).1 in
      let settled = needs_rebuild-refresh_wallpaper decoded bg in
      (settled, fresh-refresh_wallpaper later next settled, built next settled)
