-- ===== src/Engine/Command.antt =====
-- The commands that flow into the actor of clients/desktop/core/src/engine.rs, and the image of
-- clients/desktop/core/src/clipboard.rs that one of them carries.
use copysync.Prelude.{ℕ, Option, List, Text, Bytes}

pub record Image : Type 0 where
  pub width : ℕ
  pub height : ℕ
  pub rgba : Bytes

pub data Cmd : Type 0 where
  local_text : Text → Option Text → Cmd
  local_image : Image → Cmd
  send_text : Text → Cmd
  send_file : Text → Cmd
  local_files : List Text → Cmd
  set_pool : Text → Cmd
