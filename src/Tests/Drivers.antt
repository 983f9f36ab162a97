-- ===== src/Tests/Drivers.antt =====
-- The clipboard of the system and the drivers of its watcher.
use copysync.Prelude.{◌≡◌, true, false, some, [], ◌∷◌, ◌++◌, map, codes, ◌==◌, ltb, if◌then◌else◌}
use copysync.Clipboard.{OsAnswer}
use copysync.Clipboard.Access.{Board, get_text, get_image, get_html}
use copysync.Clipboard.Access.Opened.{ReadsBy, get-ReadsBy}
use copysync.Engine.Watcher.Drivers.{changed, failed, clipboard_loop, clipboard_poll_loop}
use copysync.Engine.Watcher.Drivers.Stutter.{
  Generation, open_event, events_of, ticks_of, clipboard_loop-clipboard_poll_loop,
}
use copysync.Tests.Rings.{copied, digest}

-- A text that the listener reports twice more, once as an error, and another that is polled often.
abbrev twice : Generation
twice = record { reads = copied; reports = changed ∷ failed (codes "e") ∷ []; polls = 0 }

abbrev other : Generation
other = record { reads = record copied { text = some (codes "b") }; reports = []; polls = 3 }

clipboard_loop-clipboard_poll_loop_example :
    (clipboard_loop digest true copied
      (map (open_event copied) twice.reports ++ events_of (other ∷ []))
      []).cmds
    ≡ (clipboard_poll_loop digest (ticks_of (twice ∷ other ∷ []))).cmds
clipboard_loop-clipboard_poll_loop_example =
    clipboard_loop-clipboard_poll_loop digest twice (other ∷ []) ((tt, (tt, tt)), (tt, tt))

-- A clipboard of Windows with text only, which another program holds at the first two opens.
abbrev board : Board
board = record {
  windows = true;
  is_available = λ f. f == 13;
  register = λ name. some 49;
  opens = λ n. if ltb n 2 then OsAnswer.no (codes "busy") else OsAnswer.yes tt;
  opens_raw = OsAnswer.yes tt;
  takes = λ p. OsAnswer.yes tt;
  text = OsAnswer.yes (codes "hi");
  image = OsAnswer.no [];
  html = OsAnswer.no [];
}

get-ReadsBy_example :
    ReadsBy board false (OsAnswer.yes (codes "hi")) (get_text board)
    × ReadsBy board true board.image (get_image board)
    × ReadsBy board true board.html (get_html board)
get-ReadsBy_example = get-ReadsBy board
