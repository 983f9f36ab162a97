-- ===== src/Shell/Supervisor/Filed.antt =====
-- Whether the settings of the shell are those of its file, which a new token of the actor of
-- clients/desktop/core/src/engine.rs may change.
use copysync.Prelude.{◌≡◌, ◌||◌, refl, Bool, true, false, some, List, [], ◌∷◌, if◌then◌else◌}
use copysync.Config.{Config}
use copysync.Shell.{Shell, Shortcuts}
use copysync.Shell.Commands.{Command, run_command}
use copysync.Shell.Settings.{Held, held, IsSaved, Saved, run_command-Saved}
use copysync.Shell.Supervisor.{Happening, token_rotated}
use copysync.Shell.Supervisor.Engine.{engine}

-- The settings in use are those that the file holds, unless a token has been saved.
abbrev pub FiledIn : Bool → Held → Type 0
FiledIn true h = Unit {0}
FiledIn false h = IsSaved h

abbrev pub Filed : Bool → Shell → Type 0
Filed b s = FiledIn b (held s)

-- What may have saved a token.
unfoldable pub is_rotation : Happening → Bool
is_rotation (token_rotated token) = true
is_rotation x = false

-- Whether a token may have been saved by the end, or was before.
unfoldable pub rotated : List Happening → Bool → Bool
rotated [] b = b
rotated (x ∷ xs) b = rotated xs (is_rotation x || b)

pub engine-file :
    (c : Bool) (cfg : Config) (s : Shell)
    → engine (if c then record s { file = some cfg } else s) ≡ engine s
engine-file true cfg s = refl
engine-file false cfg s = refl

pub Filed-Saved : (b : Bool) (s : Shell) → Saved s → Filed b s
Filed-Saved true s h = tt
Filed-Saved false s h = h

pub Filed-or : (b c : Bool) (s : Shell) → Filed b s → Filed (c || b) s
Filed-or b true s h = tt
Filed-or b false s h = h

pub Filed-command :
    (b : Bool) (k : Shortcuts) (c : Command) (s : Shell) → Filed b s → Filed b (run_command k c s)
Filed-command true k c s h = tt
Filed-command false k c s h = run_command-Saved k c s h
