-- ===== src/Container/Generations/Kept.antt =====
-- internal/container/container.go: `ListBackupGenerations` keeps what the reading of a directory and
-- of the configuration keeps.
use play_bin.Base.{String, List, [], ◌∷◌, ◌==◌, inl, inr, Bool-cases, Option-cases}
use play_bin.Base.Dict.{lookup}
use play_bin.Config.{CmdConfig, Config}
use play_bin.World.{DirEntry, Result, ok, err, Trace, config_get, read_dir}
use play_bin.World.Laws.{Keeps, Result-cases}
use play_bin.Container.Archive.{backup_paths}
use play_bin.Container.Generations.{collect, add_entries, list_generations}

module _ (I : Trace → Type 0)
    (read : (dir : String) (r : Result (List DirEntry)) (h : Trace)
      → I h
      → I ((read_dir dir, r) ∷ h)) where
  collect-Keeps : (cmds : List CmdConfig) (gs : List String) → Keeps I (collect cmds gs)
  unfolding collect
  collect-Keeps [] gs env h i = i
  collect-Keeps (cmd ∷ cmds) gs env h i = elim (Bool-cases (cmd.kind == "backup")) [
    | inr other ↦ rw other (collect-Keeps cmds gs env h i)
    | inl backup ↦ elim (Option-cases (backup_paths cmd.arg)) [
      | inl p ↦ rw (backup, p) (collect-Keeps cmds gs env h i)
      | inr ((src, dest), p) ↦ elim (Result-cases (env h (read_dir dest))) [
        | inl (es, q) ↦
            let next : Trace = (read_dir dest, ok es) ∷ h in
            rw (backup, p, q)
              (collect-Keeps cmds (add_entries es gs) env next (read dest (ok es) h i))
        | inr (e, q) ↦
            let next : Trace = (read_dir dest, err e) ∷ h in
            rw (backup, p, q) (collect-Keeps cmds gs env next (read dest (err e) h i))
      ]
    ]
  ]

  pub list_generations-Keeps :
      ((cfg : Config) (h : Trace) → I h → I ((config_get, cfg) ∷ h))
      → (name : String) → Keeps I (list_generations name)
  unfolding list_generations lookup
  list_generations-Keeps config name env h i =
      let cfg = env h config_get in
      let h' : Trace = (config_get, cfg) ∷ h in
      elim (Option-cases (lookup name cfg.servers)) [
        | inl p ↦ rw p (config cfg h i)
        | inr (server, p) ↦ rw p (collect-Keeps server.commands.backup [] env h' (config cfg h i))
      ]
