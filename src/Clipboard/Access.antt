-- ===== src/Clipboard/Access.antt =====
-- The clipboard of the system in clients/desktop/core/src/clipboard.rs: the reads, which probe for
-- their format on Windows before they open it, and the writes. What the system answers is an
-- argument.
pub mod Opened
use copysync.Prelude.{
  ℕ, suc, Bool, true, false, ◌&&◌, ◌||◌, not, Option, none, some, List, [], ◌∷◌, ◌++◌, Text, codes,
  if◌then◌else◌,
}
use copysync.Engine.Command.{Image}
use copysync.Clipboard.{Attempt, succeeded, failed, OsAnswer, with_attempts}

-- What is put on the clipboard, and the formats that mark it as sensitive on Windows.
pub data Put : Type 0 where
  text_put : Text → Put
  image_put : Image → Put
  html_put : Text → Text → Put
  files_put : List Text → Put
  emptied : Put
  marked : Text → Put

-- `opens` are the answers of one open after another, `opens_raw` is that of clipboard_win, which
-- retries itself; `takes` is what becomes of a write on an open clipboard.
pub record Board : Type 0 where
  pub windows : Bool
  pub is_available : ℕ → Bool
  pub register : Text → Option ℕ
  pub opens : ℕ → OsAnswer (Unit {0})
  pub opens_raw : OsAnswer (Unit {0})
  pub takes : Put → OsAnswer (Unit {0})
  pub text : OsAnswer Text
  pub image : OsAnswer Image
  pub html : OsAnswer Text

module _ (b : Board) where
  -- CF_UNICODETEXT or CF_TEXT
  abbrev pub text_available : Bool
  text_available = b.is_available 13 || b.is_available 1

  -- CF_DIBV5 or CF_DIB
  abbrev pub image_available : Bool
  image_available = b.is_available 17 || b.is_available 8

  abbrev pub html_available : Bool
  html_available = elim (b.register (codes "HTML Format")) [
    | none ↦ false
    | some f ↦ b.is_available f
  ]

  -- `open_clipboard(what)?` before a call, with the number of opens.
  abbrev pub opened {ℓ} : {A : Type ℓ} → Text → OsAnswer A → Attempt (Unit {0}) → OsAnswer A × ℕ
  opened what content (succeeded ok naps) = (content, suc naps)
  opened what content (failed e naps) =
      (OsAnswer.no (codes "open clipboard for " ++ what ++ codes ": " ++ e), suc naps)

  abbrev pub open_clipboard {ℓ} : {A : Type ℓ} → Text → OsAnswer A → OsAnswer A × ℕ
  open_clipboard what content = opened what content (with_attempts b.opens)

  unfoldable pub get_text : OsAnswer Text × ℕ
  get_text =
      if b.windows && not text_available
      then (OsAnswer.no (codes "no text format on clipboard"), 0)
      else open_clipboard (codes "get_text") b.text

  unfoldable pub get_image : OsAnswer Image × ℕ
  get_image =
      if b.windows && not image_available
      then (OsAnswer.no (codes "no image format on clipboard"), 0)
      else open_clipboard (codes "get_image") b.image

  unfoldable pub get_html : OsAnswer Text × ℕ
  get_html =
      if b.windows && not html_available
      then (OsAnswer.no (codes "no HTML format on clipboard"), 0)
      else open_clipboard (codes "get_html") b.html

  -- A write gives its answer and what it has put, in order.
  abbrev pub written : Put → OsAnswer (Unit {0}) → OsAnswer (Unit {0}) × List Put
  written p (OsAnswer.yes ok) = (OsAnswer.yes ok, p ∷ [])
  written p (OsAnswer.no e) = (OsAnswer.no e, [])

  unfoldable pub set_text : Text → OsAnswer (Unit {0}) × List Put
  set_text t = written (text_put t) (open_clipboard (codes "set_text") (b.takes (text_put t))).0

  unfoldable pub clear : OsAnswer (Unit {0}) × List Put
  clear = written emptied (open_clipboard (codes "clear") (b.takes emptied)).0

  unfoldable pub set_image : Image → OsAnswer (Unit {0}) × List Put
  set_image i = written (image_put i) (open_clipboard (codes "set_image") (b.takes (image_put i))).0

  unfoldable pub set_html : Text → Text → OsAnswer (Unit {0}) × List Put
  set_html html alt =
      written (html_put html alt)
        (open_clipboard (codes "set_html") (b.takes (html_put html alt))).0

  -- clipboard_win: open, empty and put, each of which may be refused.
  abbrev raw_opened : Text → Put → OsAnswer (Unit {0}) × List Put
  raw_opened what p = elim (b.takes emptied) [
    | OsAnswer.no e ↦ (OsAnswer.no (codes "empty clipboard: " ++ e), [])
    | OsAnswer.yes ok ↦ elim (b.takes p) [
      | OsAnswer.no e ↦ (OsAnswer.no (what ++ e), emptied ∷ [])
      | OsAnswer.yes ok ↦ (OsAnswer.yes tt, emptied ∷ p ∷ [])
    ]
  ]

  abbrev set_raw : Text → Put → OsAnswer (Unit {0}) × List Put
  set_raw what p = elim b.opens_raw [
    | OsAnswer.no e ↦ (OsAnswer.no (codes "open clipboard: " ++ e), [])
    | OsAnswer.yes ok ↦ raw_opened what p
  ]

  unfoldable pub set_files : List Text → OsAnswer (Unit {0}) × List Put
  set_files paths =
      if b.windows
      then set_raw (codes "set CF_HDROP: ") (files_put paths)
      else (OsAnswer.yes tt, [])

  -- A format that is registered, where the clipboard takes it; a refusal is ignored.
  abbrev mark : Text → List Put
  mark name = elim (b.register name) [
    | none ↦ []
    | some f ↦ elim (b.takes (marked name)) [
      | OsAnswer.no e ↦ []
      | OsAnswer.yes ok ↦ marked name ∷ []
    ]
  ]

  abbrev marks : List Put
  marks =
      mark (codes "ExcludeClipboardContentFromMonitorProcessing")
      ++ mark (codes "CanIncludeInClipboardHistory")
      ++ mark (codes "CanUploadToCloudClipboard")

  abbrev then_marks : OsAnswer (Unit {0}) × List Put → OsAnswer (Unit {0}) × List Put
  then_marks (OsAnswer.yes ok, puts) = (OsAnswer.yes ok, puts ++ marks)
  then_marks (OsAnswer.no e, puts) = (OsAnswer.no e, puts)

  unfoldable pub set_text_sensitive : Text → OsAnswer (Unit {0}) × List Put
  unfolding set_text
  set_text_sensitive t =
      if b.windows then then_marks (set_raw (codes "set text: ") (text_put t)) else set_text t
