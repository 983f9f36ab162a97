-- ===== src/Shell/Tray.antt =====
-- The menu of the tray: `build_tray_menu`, and what a click of it does.
use copysync.Prelude.{
  Bool, not, Option, none, some, List, [], ◌∷◌, ◌++◌, map, Text, codes, is_empty, text_eq,
  strip_prefix, if◌then◌else◌,
}
use copysync.Engine.Command.{Cmd}
use copysync.Shell.{Shell, Outcome, enqueue}

-- An item of the tray's menu.
pub data MenuItem : Type 0 where
  separator : MenuItem
  item : Text → Text → MenuItem
  header : Text → Text → MenuItem
  check : Text → Text → Bool → MenuItem

abbrev pub pool_item : Text → Text → MenuItem
pool_item current p = check (codes "pool:" ++ p) p (text_eq p current)

unfoldable pub build_tray_menu : Text → List Text → List MenuItem
build_tray_menu current pools =
    let open_item = item (codes "show") (codes "CopySync 열기") in
    let quit_item = item (codes "quit") (codes "종료") in
    let switch = header (codes "pool_hdr") (codes "풀 전환") in
    let rest = separator ∷ quit_item ∷ [] in
    if not (is_empty pools)
    then open_item ∷ separator ∷ switch ∷ (map (pool_item current) pools ++ rest)
    else open_item ∷ rest

-- What a click of the menu does besides a command.
pub data Done : Type 0 where
  shown exited ignored : Done
  commanded : Outcome → Done

abbrev pub menu_pool : Option Text → Shell → Done × Shell
menu_pool none s = (ignored, s)
menu_pool (some name) s = let (o, s1) = enqueue (Cmd.set_pool name) s in (commanded o, s1)

unfoldable pub on_menu_event : Text → Shell → Done × Shell
on_menu_event id s =
    if text_eq id (codes "show")
    then (shown, s)
    else if text_eq id (codes "quit")
    then (exited, s)
    else menu_pool (strip_prefix id (codes "pool:")) s
