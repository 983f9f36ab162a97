-- ===== src/Engine/Watcher.antt =====
-- The clipboard watcher of clients/desktop/core/src/engine.rs: `ClipState` and `poll_once`. What
-- the clipboard answers to each read of one call is a record; `none` is an `Err` of a read.
pub mod Polls
pub mod Drivers
use copysync.Prelude.{
  ℕ, Bool, true, false, not, ◌&&◌, ◌||◌, Option, none, some, List, [], ◌∷◌, ◌++◌, Text, Bytes, ◌==◌,
  text_eq, is_empty, if◌then◌else◌,
}
use copysync.Engine.Command.{Image, Cmd, local_text, local_image, local_files}

pub record ClipState : Type 0 where
  pub last_seq : Option ℕ
  pub last_text : Text
  pub last_img : Text
  pub last_files : Text
  pub had_rich_last : Bool

-- `ClipState::new()`
abbrev pub new : ClipState
new = record {
  last_seq = none;
  last_text = [];
  last_img = [];
  last_files = [];
  had_rich_last = false;
}

pub record Reads : Type 0 where
  pub seq : Option ℕ
  pub image : Option Image
  pub files : Option (List Text)
  pub text : Option Text
  pub html : Option Text
  pub formats : List Text
  pub virtual_names : Option (List Text)

-- The diagnostics of `emit.cliplog`.
pub data Cliplog : Type 0 where
  rich_format : Bool → Bool → Cliplog
  virtual_files : List Text → List Text → Cliplog
  read_failed : List Text → Cliplog
  unhandled : List Text → Cliplog

pub record Poll : Type 0 where
  pub state : ClipState
  pub cmds : List Cmd
  pub logs : List Cliplog

-- `files.join("\u{1}")`
unfoldable pub join : List Text → Text
join [] = []
join (f ∷ []) = f
join (f ∷ g ∷ fs) = f ++ 1 ∷ join (g ∷ fs)

abbrev pub is_some {ℓ} : {A : Type ℓ} → Option A → Bool
is_some none = false
is_some (some a) = true

abbrev same_seq : Option ℕ → Option ℕ → Bool
same_seq none none = true
same_seq (some a) (some b) = a == b
same_seq _ _ = false

-- `seq.map_or(true, |s| Some(s) != *last_seq)`
unfoldable pub seq_changed : Option ℕ → Option ℕ → Bool
seq_changed none last = true
seq_changed (some s) last = not (same_seq (some s) last)

-- `filter(|x| !x.is_empty())`
abbrev pub non_empty : Option Text → Option Text
non_empty none = none
non_empty (some t) = if is_empty t then none else some t

abbrev pub or_default : Option Text → Text
or_default none = []
or_default (some t) = t

abbrev pub files_key : Option (List Text) → Text
files_key none = []
files_key (some fs) = join fs

unfoldable pub files_changed : Text → Option (List Text) → Bool
files_changed last none = false
files_changed last (some fs) = not (text_eq (join fs) last)

unfoldable pub text_changed : Text → Option Text → Bool
text_changed last none = false
text_changed last (some t) = not (is_empty t) && not (text_eq t last)

module _ (sha_hex : Bytes → Text) where
  abbrev pub image_hash : Option Image → Text
  image_hash none = []
  image_hash (some img) = sha_hex img.rgba

  -- `img_changed`, `files_changed` and `text_changed`, each against its last hash.
  unfoldable pub img_changed : Text → Option Image → Bool
  img_changed last none = false
  img_changed last (some img) = not (text_eq (sha_hex img.rgba) last)

  -- The branch that a generation takes: the hashes it leaves and the command it sends. A branch
  -- snapshots the companions of the format that it chose as already seen.
  unfoldable pub choose : ClipState → Reads → ClipState × List Cmd
  choose st r =
      if img_changed st.last_img r.image
      then (
        record st {
          last_img = image_hash r.image;
          last_text = or_default (non_empty r.text);
          last_files = files_key r.files;
        },
        elim r.image [ none ↦ [] | some img ↦ local_image img ∷ [] ],
      )
      else if files_changed st.last_files r.files
      then (
        record st {
          last_files = files_key r.files;
          last_text = or_default (non_empty r.text);
          last_img = image_hash r.image;
        },
        elim r.files [ none ↦ [] | some fs ↦ local_files fs ∷ [] ],
      )
      else if text_changed st.last_text r.text
      then (
        record st { last_text = or_default r.text },
        elim r.text [ none ↦ [] | some t ↦ local_text t (non_empty r.html) ∷ [] ],
      )
      else (st, [])

  abbrev pub read_ok : Reads → Bool
  read_ok r = is_some r.image || is_some r.files || is_some r.text

  abbrev pub commit_seq : Option ℕ → Reads → Option ℕ
  commit_seq last r = if read_ok r && is_some r.seq then r.seq else last

  unhandled_logs : Reads → Bool → List Cliplog
  unhandled_logs r handled =
      if not handled && is_some r.seq
      then (elim r.virtual_names [
        | some names ↦ virtual_files names r.formats ∷ []
        | none ↦
            if not (read_ok r)
            then read_failed r.formats ∷ []
            else if is_empty r.formats
            then []
            else unhandled r.formats ∷ []
      ])
      else []

  rich_logs : ClipState → Reads → List Cliplog
  rich_logs st r =
      if (is_some r.image || is_some r.files) && not st.had_rich_last
      then rich_format (is_some r.image) (is_some r.files) ∷ []
      else []

  unfoldable pub poll_once : ClipState → Reads → Poll
  unfolding unhandled_logs rich_logs
  poll_once st r =
      if seq_changed r.seq st.last_seq
      then (let (chosen, sent) = choose st r in
          record {
            state = record chosen {
              had_rich_last = is_some r.image || is_some r.files;
              last_seq = commit_seq st.last_seq r;
            };
            cmds = sent;
            logs = rich_logs st r ++ unhandled_logs r (not (is_empty sent));
          })
      else record { state = st; cmds = []; logs = [] }
