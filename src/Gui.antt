-- ===== src/Gui.antt =====
-- The desktop GUI, clients/desktop/gui/src/main.rs, without its drawing.
pub mod Prefs
pub mod Labels
pub mod Wallpaper
pub mod App
pub mod Launch
