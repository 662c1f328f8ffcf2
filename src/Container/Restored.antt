-- ===== src/Container/Restored.antt =====
-- internal/container/container.go: what `Restore` copies over the data of a server, and when.
use play_bin.Base.{String, false, some, List, [], ◌∷◌, ◌<>◌, ◌≡◌, ◌≢◌}
use mathlib.Core.List.{Memᴰ}
use play_bin.Base.Dict.{lookup}
use play_bin.Text.Paths.{join_path}
use play_bin.Config.{Config, CmdConfig, ServerConfig}
use play_bin.World.{Inspect, Result, ok, Trace, Env, config_get, container_inspect, stat, rsync}
use play_bin.Container.Archive.{is_running}
use play_bin.Container.RoundTrip.{pairs}

-- The calls before the latest tests for a file and copies.
abbrev pub before_copies : Trace → Trace
before_copies [] = []
before_copies ((stat p, r) ∷ h) = before_copies h
before_copies ((rsync args, r) ∷ h) = before_copies h
before_copies (e ∷ h) = e ∷ h

-- `rsync -avh --delete <dest>/<generation>/ <src>`
abbrev pub restore_args : String → String → String → List String
restore_args generation src dest =
    "-avh" ∷ "--delete" ∷ (join_path dest generation <> "/") ∷ src ∷ []

-- What holds when a restore copies: its arguments are a generation, which is named, and is in one of
-- the backup directories of the server's configuration, and the data that it belongs to; the call just
-- before found the generation; and nothing but such tests and copies came since an inspection of
-- the server's container, which did not find it running, and which came right after the
-- configuration was read.
pub record IsRestoring (name generation : String) (args : List String) (h : Trace) : Type 0 where
  pub src : String
  pub dest : String
  pub rest : Trace
  pub cfg : Config
  pub server : ServerConfig
  pub inspection : Result Inspect
  pub older : Trace
  pub is_named : generation ≢ ""
  pub passed : args ≡ restore_args generation src dest
  pub found : h ≡ (stat (join_path dest generation), ok tt) ∷ rest
  pub listed : Memᴰ (src, dest) (pairs server.commands.backup)
  pub known : lookup name cfg.servers ≡ some server
  pub prepared : before_copies h ≡ (container_inspect name, inspection) ∷ (config_get, cfg) ∷ older
  pub is_down : is_running inspection ≡ false

abbrev pub AllRestoring : String → String → Trace → Type 0
AllRestoring name generation [] = Unit
AllRestoring name generation ((rsync args, r) ∷ h) =
    IsRestoring name generation args h × AllRestoring name generation h
AllRestoring name generation (e ∷ h) = AllRestoring name generation h

module _ (name generation : String) (is_named : generation ≢ "") (cfg : Config)
    (server : ServerConfig) (known : lookup name cfg.servers ≡ some server)
    (inspection : Result Inspect) (is_down : is_running inspection ≡ false) (older : Trace)
    (env : Env) where
  abbrev Prepared : Trace → Type 0
  Prepared h =
      AllRestoring name generation h
      × (before_copies h ≡ (container_inspect name, inspection) ∷ (config_get, cfg) ∷ older)

  -- The steps that are left are some of those of the server.
  abbrev Belong : List CmdConfig → Type 0
  Belong cmds = (p : String × String) → Memᴰ p (pairs cmds) → Memᴰ p (pairs server.commands.backup)
