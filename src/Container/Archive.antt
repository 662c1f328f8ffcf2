-- ===== src/Container/Archive.antt =====
-- internal/container/container.go: `Backup` and `Restore`.
use play_bin.Base.{
  String, Bool, true, false, not, ◌||◌, Option, none, some, List, [], ◌∷◌, ◌++◌, ◌==◌,
  if◌then◌else◌, ◌<>◌,
}
use play_bin.Base.Dict.{lookup}
use play_bin.Text.{split_once}
use play_bin.Text.Paths.{join_path}
use play_bin.Config.{CmdConfig}
use play_bin.World.{
  Inspect, Error, fault, other, wrapped, Result, ok, err, Outcome, M, pure, call, ◌>>=◌, ◌>>◌,
  config_get, container_inspect, local_time, make_dir_all, stat, rsync, remove_file, symlink,
}
use play_bin.Docker.{send_command}
use play_bin.Container.Lifecycle.{pause}

-- `err == nil && inspect.State.Running`
abbrev pub is_running : Result Inspect → Bool
is_running (ok i) = i.running
is_running (err _) = false

abbrev pub failed : Outcome → Bool
failed (ok _) = false
failed (err _) = true

-- `src:destBase`
abbrev pub backup_paths : String → Option (String × String)
backup_paths arg = split_once b':' arg

-- The arguments of rsync; `linked` tells that there is an earlier backup.
abbrev pub backup_args : Bool → String → String → String → String → List String
backup_args linked latest src dest_base timestamp =
    ("-avh" ∷ "--delete" ∷ [])
    ++ ((if linked then "--link-dest" ∷ latest ∷ [] else [])
        ++ ((src <> "/") ∷ (dest_base <> "/" <> timestamp) ∷ []))

-- A step of type `backup`. The result tells whether rsync failed.
unfoldable pub copy_step : String → String → String → M Bool
copy_step timestamp src dest_base = do
  call (make_dir_all dest_base)
  earlier ← call (stat (dest_base <> "/latest"))
  r ←
      call (
        rsync (backup_args (not (failed earlier)) (dest_base <> "/latest") src dest_base timestamp))
  if failed r then pure true else do
    call (remove_file (dest_base <> "/latest"))
    call (symlink timestamp (dest_base <> "/latest"))
    pure false

-- One step of the backup sequence. The result tells whether it sets `hasError`.
unfoldable pub backup_step : String → String → Bool → CmdConfig → M Bool
backup_step name timestamp running cmd =
    if cmd.kind == "attach"
    then if running then send_command name (cmd.arg <> "\n") >> pure false else pure false
    else if cmd.kind == "sleep"
    then if running then pause cmd.arg >> pure false else pure false
    else if cmd.kind == "backup"
    then elim (backup_paths cmd.arg) [
      | none ↦ pure false
      | some (src, dest_base) ↦ copy_step timestamp src dest_base
    ]
    else pure false

unfoldable pub backup_steps : String → String → Bool → List CmdConfig → Bool → M Bool
backup_steps name timestamp running [] has_error = pure has_error
backup_steps name timestamp running (cmd ∷ cmds) has_error = do
  e ← backup_step name timestamp running cmd
  backup_steps name timestamp running cmds (has_error || e)

abbrev pub backup_failed : Error
backup_failed = wrapped "backup failed partially" (other "one or more backup steps failed")

-- `Backup`
unfoldable pub backup : String → M Outcome
backup name = do
  cfg ← call config_get
  elim (lookup name cfg.servers) [
    | none ↦
        pure (err (fault ("server " <> name <> " not found in config or not managed by docker")))
    | some server ↦ do
      timestamp ← call local_time
      r ← call (container_inspect name)
      e ← backup_steps name timestamp (is_running r) server.commands.backup false
      if e then pure (err backup_failed) else pure (ok tt)
  ]

-- One step of `Restore`: the result tells whether it sets `hasError`.
unfoldable pub restore_step : String → CmdConfig → M Bool
restore_step generation cmd =
    if cmd.kind == "backup"
    then elim (backup_paths cmd.arg) [
      | none ↦ pure false
      | some (src, dest_base) ↦ do
        found ← call (stat (join_path dest_base generation))
        elim found [
          | err _ ↦ pure false
          | ok _ ↦ do
            r ←
                call
                  (rsync ("-avh" ∷ "--delete" ∷ (join_path dest_base generation <> "/") ∷ src ∷ []))
            pure (failed r)
        ]
    ]
    else pure false

unfoldable pub restore_steps : String → List CmdConfig → Bool → M Bool
restore_steps generation [] has_error = pure has_error
restore_steps generation (cmd ∷ cmds) has_error = do
  e ← restore_step generation cmd
  restore_steps generation cmds (has_error || e)

-- `Restore`
unfoldable pub restore : String → String → M Outcome
restore name generation =
    if generation == "" then pure (err (fault "generation is required for restore")) else do
      cfg ← call config_get
      elim (lookup name cfg.servers) [
        | none ↦ pure (err (fault ("server " <> name <> " not found in config")))
        | some server ↦ do
          r ← call (container_inspect name)
          if is_running r
              then pure (err (fault "container is running. please stop it before restore"))
              else do
                e ← restore_steps generation server.commands.backup false
                if e then pure (err (fault "restore failed partially")) else pure (ok tt)
      ]
