-- ===== src/Agent/Startup/Ready.antt =====
-- What holds when the agent has come up, and when it comes up again.
use copysync.Prelude.{
  ◌≡◌, refl, ap, ◌∙◌, ◌⊎◌, inl, inr, Bool, true, false, ℕ, Option, none, some, Bytes, length,
  if◌then◌else◌, arith,
}
use copysync.World.{Crates, Laws}
use copysync.Config.{Config}
use copysync.History.{History}
use copysync.Agent.Requests
use copysync.Agent.Requests.{Agent, Answers, status_snapshot, status_to_ipc}
use copysync.Agent.Supervisor
use copysync.Agent.Supervisor.{Host}
use copysync.Agent.Supervisor.Lifecycle.{accepts, IsSupervised, start-IsSupervised}
use copysync.Agent.Startup.{
  Keyring, Disk, as_key, key_of_file, key_of_base64, key_of_password, ring_key, file_key, key_by,
  history_key, idle, auto_start, opened, built, build_engine,
}

-- The random key can be kept where it would be looked for.
abbrev pub keeps_key : Option Keyring → Bool → Bool
keeps_key none writable = writable
keeps_key (some ring) writable = ring.settable

as_key-length : (b : Bytes) → length b ≡ 32 → as_key b ≡ some b
as_key-length b long = ground (arith, long)

module _ (w : Crates) (random other : Bytes) (long : length random ≡ 32) where
  ring_key-again :
      (o : Option Bytes) (ring : Keyring) (d : Disk)
      → Laws w
      → d.keyring ≡ some ring
      → key_of_password w ring.password ≡ o
      → ring.settable ≡ true
      → let t = ring_key w o random ring d in history_key w other t.1 ≡ t
  unfolding history_key
  ring_key-again (some k) ring d laws is has settable =
      ap (λ r. key_by w r other d) is ∙ ap (λ o. ring_key w o other ring d) has
  ring_key-again none ring d laws is has settable =
      let new = record ring { password = some (w.base64 random) } in
      let next = (ring_key w none random ring d).1 in
      ap (λ b. key_by w (some (if b then new else ring)) other next) settable
      ∙ ap (λ o. ring_key w (key_of_base64 w o) other new next) (laws.unbase64-base64 random)
      ∙ ap (λ o. ring_key w o other new next) (as_key-length random long)

  file_key-again :
      (o : Option Bytes) (d : Disk)
      → d.keyring ≡ none
      → key_of_file d.key_file ≡ o
      → d.key_writable ≡ true
      → let t = file_key w o random d in history_key w other t.1 ≡ t
  unfolding history_key
  file_key-again (some k) d is has writable =
      ap (λ r. key_by w r other d) is ∙ ap (λ o. file_key w o other d) has
  file_key-again none d is has writable =
      let next = (file_key w none random d).1 in
      ap (λ r. key_by w r other next) is
      ∙ ap (λ b. file_key w (key_of_file (if b then some random else d.key_file)) other next)
          writable
      ∙ ap (λ o. file_key w o other next) (as_key-length random long)

  again :
      (r : Option Keyring) (d : Disk)
      → Laws w
      → d.keyring ≡ r
      → keeps_key r d.key_writable ≡ true
      → let t = key_by w r random d in history_key w other t.1 ≡ t
  again none d laws is keeps = file_key-again (key_of_file d.key_file) d is refl keeps
  again (some ring) d laws is keeps =
      ring_key-again (key_of_password w ring.password) ring d laws is refl keeps

  -- The key of the history that one start of the agent uses is the one that the next start uses,
  -- and the next start changes nothing, if a random key of 32 bytes can be kept: in the keyring
  -- where there is one, else in its file.
  pub history_key-again :
      (d : Disk)
      → Laws w
      → keeps_key d.keyring d.key_writable ≡ true
      → let t = history_key w random d in history_key w other t.1 ≡ t
  unfolding history_key
  history_key-again d laws keeps = again d.keyring d laws refl keeps

-- The settings of the status are those of the saved configuration.
abbrev pub SettingsOf : Option Config → Agent → Type 0
SettingsOf c a =
    (c ≡ none)
    ⊎ ((cfg : Config) × (c ≡ some cfg)
        × (a.exclude_sensitive ≡ cfg.exclude_sensitive)
        × (a.mark_sensitive ≡ cfg.mark_received_sensitive)
        × (a.auto_clear_secs ≡ cfg.auto_clear_secs)
        × (a.telemetry ≡ cfg.telemetry))

-- How many actors a configuration makes, and whether commands are then taken.
abbrev pub actors_for : Option Config → ℕ
actors_for none = 0
actors_for (some cfg) = 1

abbrev pub taken_for : Option Config → Bool
taken_for none = false
taken_for (some cfg) = true

abbrev pub Ready : Option Config → History → Host → Type 0
Ready c table h =
    IsSupervised h
    × (h.actors ≡ actors_for c)
    × (accepts h.agent.cmd_tx ≡ taken_for c)
    × (h.agent.running ≡ c)
    × (h.agent.file ≡ c)
    × SettingsOf c h.agent
    × (h.agent.hist ≡ table)

started-Ready :
    (o : Answers) (c : Option Config) (table : History) (d : Disk)
    → d.config ≡ c
    → Ready c table (auto_start o c (idle table d))
unfolding idle Supervisor.start Requests.start
started-Ready o none table d is = ((refl, refl, refl), refl, refl, refl, is, inl refl, refl)
started-Ready o (some cfg) table d is = (
  start-IsSupervised o cfg (idle table d) (refl, refl, refl),
  refl,
  refl,
  refl,
  is,
  inr (cfg, refl, refl, refl, refl, refl),
  refl,
)

-- Looking for the key leaves the configuration and the database alone.
abbrev Rest : Disk → Disk → Type 0
Rest d e = (e.config ≡ d.config) × (e.database ≡ d.database)

ring_key-Rest :
    (w : Crates) (o : Option Bytes) (random : Bytes) (ring : Keyring) (d : Disk)
    → Rest d (ring_key w o random ring d).1
ring_key-Rest w none random ring d = (refl, refl)
ring_key-Rest w (some k) random ring d = (refl, refl)

file_key-Rest :
    (w : Crates) (o : Option Bytes) (random : Bytes) (d : Disk) → Rest d (file_key w o random d).1
file_key-Rest w none random d = (refl, refl)
file_key-Rest w (some k) random d = (refl, refl)

key_by-Rest :
    (w : Crates) (r : Option Keyring) (random : Bytes) (d : Disk) → Rest d (key_by w r random d).1
key_by-Rest w none random d = file_key-Rest w (key_of_file d.key_file) random d
key_by-Rest w (some ring) random d = ring_key-Rest w (key_of_password w ring.password) random ring d

-- Where the database opens, the agent comes up: with the key of the history; where there is a saved
-- configuration, with exactly one actor, that of this configuration, to which commands go, else
-- with no actor and no command taken; and with the settings of that configuration.
pub build_engine-Ready :
    (w : Crates) (o : Answers) (random : Bytes) (d : Disk) (table : History)
    → d.database ≡ some table
    → let (key, d1) = history_key w random d in
      (h : Host) × (build_engine w o random d ≡ (some h, d1))
      × Ready d.config (record table { key = some key }) h
unfolding build_engine history_key
build_engine-Ready w o random d table opens =
    let (key, d1) = history_key w random d in
    let (config, database) = key_by-Rest w d.keyring random d in
    let keyed = record table { key = some key } in
    let up : build_engine w o random d ≡ (some (auto_start o d.config (idle keyed d1)), d1) =
      ap (λ b. (built o (opened b key) d1, d1)) (database ∙ opens)
      ∙ ap (λ c. (some (auto_start o c (idle keyed d1)), d1)) config in
    (auto_start o d.config (idle keyed d1), up, started-Ready o d.config keyed d1 config)
