-- ===== src/Container/RoundTrip/Saved.antt =====
-- internal/container/container.go: what `Backup` does to the directories.
use play_bin.Base.{
  String, Bool, true, false, not, ◌||◌, Option, none, some, List, [], ◌∷◌, ◌==◌, ◌<>◌, ◌≡◌, refl,
  sym, ap, ◌∙◌, arith, inl, inr, Bool-cases, Option-cases, eq_iff,
}
use play_bin.Base.Dict.{lookup}
use play_bin.Config.{CmdConfig, ServerConfig}
use play_bin.World.{
  Trace, Env, pure, ok, stat, config_get, local_time, make_dir_all, container_inspect,
}
use play_bin.Docker.{send_command}
use play_bin.Container.Lifecycle.{pause}
use play_bin.Container.Archive.{
  failed, is_running, backup_paths, backup_args, copy_step, backup_step, backup_steps, backup,
}
use play_bin.Container.RoundTrip.Moves.{Store, put, moves}
use play_bin.Container.RoundTrip.{IsMirror, copied, after, pair_of, pairs, with_pair, saves}

module _ {ℓ} {D : Type ℓ} (effect : List String → D → D → D) (mirror : IsMirror effect)
    (s : Store D) where
  send_command-after :
      (id text : String) (env : Env) (h : Trace)
      → after effect s (send_command id text env h).1 ≡ after effect s h
  unfolding send_command
  send_command-after id text env h = ground arith

  pause-after :
      (text : String) (env : Env) (h : Trace)
      → after effect s (pause text env h).1 ≡ after effect s h
  unfolding pause
  pause-after text env h = ground arith

  pair_of-backup :
      (cmd : CmdConfig) → (cmd.kind == "backup") ≡ true → pair_of cmd ≡ backup_paths cmd.arg
  pair_of-backup cmd same = rw same refl

  backup_step-none :
      (name t : String) (running : Bool) (cmd : CmdConfig)
      → (cmd.kind == "backup") ≡ true
      → backup_paths cmd.arg ≡ none
      → backup_step name t running cmd ≡ pure false
  unfolding backup_step
  backup_step-none name t running cmd same p = rw ((eq_iff cmd.kind "backup").0 same, p) refl

  backup_step-some :
      (name t : String) (running : Bool) (cmd : CmdConfig) (src dest : String)
      → (cmd.kind == "backup") ≡ true
      → backup_paths cmd.arg ≡ some (src, dest)
      → backup_step name t running cmd ≡ copy_step t src dest
  unfolding backup_step
  backup_step-some name t running cmd src dest same p =
      rw ((eq_iff cmd.kind "backup").0 same, p) refl

  copied-backup_args :
      (linked : Bool) (latest src dest t : String) (st : Store D)
      → copied effect (backup_args linked latest src dest t) st
        ≡ put ((dest <> "/" <> t) <> "/") (st (src <> "/")) st
  copied-backup_args true latest src dest t st =
      ap (λ d. put ((dest <> "/" <> t) <> "/") d st) (mirror.linked latest _ _)
  copied-backup_args false latest src dest t st =
      ap (λ d. put ((dest <> "/" <> t) <> "/") d st) (mirror.plain _ _)

  copy_step-after :
      (t src dest : String) (env : Env) (h : Trace)
      → (copy_step t src dest env h).0 ≡ false
      → after effect s (copy_step t src dest env h).1
        ≡ put ((dest <> "/" <> t) <> "/") (after effect s h (src <> "/")) (after effect s h)
  unfolding copy_step
  copy_step-after t src dest env h fine =
      let u : Trace = (make_dir_all dest, env h (make_dir_all dest)) ∷ h in
      let linked = not (failed (env u (stat (dest <> "/latest")))) in
      ground
        (arith, fine, copied-backup_args linked (dest <> "/latest") src dest t (after effect s h))

  -- What a step of the sequence does to the store, if it does not fail.
  abbrev step_moves : String → Option (String × String) → List (String × String)
  step_moves t p = saves t (with_pair p [])

  step_moves-pairs :
      (t : String) (p : Option (String × String)) (ps : List (String × String)) (st : Store D)
      → moves (saves t ps) (moves (step_moves t p) st) ≡ moves (saves t (with_pair p ps)) st
  step_moves-pairs t none ps st = refl
  step_moves-pairs t (some (src, dest)) ps st = refl

  backup_step-after :
      (name t : String) (running : Bool) (cmd : CmdConfig) (env : Env) (h : Trace)
      → (backup_step name t running cmd env h).0 ≡ false
      → after effect s (backup_step name t running cmd env h).1
        ≡ moves (step_moves t (pair_of cmd)) (after effect s h)
  unfolding backup_step
  backup_step-after name t running cmd env h fine = elim (Bool-cases (cmd.kind == "backup")) [
    | inr other ↦
        rw other (
          ground
            (arith, send_command-after name (cmd.arg <> "\n") env h, pause-after cmd.arg env h))
    | inl same ↦ elim (Option-cases (backup_paths cmd.arg)) [
      | inl p ↦
          let e = backup_step-none name t running cmd same p in
          ap (λ m. after effect s (m env h).1) e
          ∙ ap (λ q. moves (step_moves t q) (after effect s h)) (sym (pair_of-backup cmd same ∙ p))
      | inr ((src, dest), p) ↦
          let e = backup_step-some name t running cmd src dest same p in
          ap (λ m. after effect s (m env h).1) e
          ∙ copy_step-after t src dest env h (sym (ap (λ m. (m env h).0) e) ∙ fine)
          ∙ ap (λ q. moves (step_moves t q) (after effect s h)) (sym (pair_of-backup cmd same ∙ p))
    ]
  ]

  backup_steps-error :
      (name t : String) (running : Bool) (cmds : List CmdConfig) (error : Bool) (env : Env)
      (h : Trace)
      → (backup_steps name t running cmds error env h).0 ≡ false
      → error ≡ false
  unfolding backup_steps
  backup_steps-error name t running [] error env h fine = fine
  backup_steps-error name t running (cmd ∷ cmds) error env h fine =
      let (e, h') = backup_step name t running cmd env h in
      ground (arith, backup_steps-error name t running cmds (error || e) env h' fine)

  backup_steps-after :
      (name t : String) (running : Bool) (cmds : List CmdConfig) (error : Bool) (env : Env)
      (h : Trace)
      → (backup_steps name t running cmds error env h).0 ≡ false
      → after effect s (backup_steps name t running cmds error env h).1
        ≡ moves (saves t (pairs cmds)) (after effect s h)
  unfolding backup_steps
  backup_steps-after name t running [] error env h fine = refl
  backup_steps-after name t running (cmd ∷ cmds) error env h fine =
      let (e, h') = backup_step name t running cmd env h in
      let later = backup_steps-after name t running cmds (error || e) env h' fine in
      let all_fine = backup_steps-error name t running cmds (error || e) env h' fine in
      let here = backup_step-after name t running cmd env h (ground (arith, all_fine)) in
      later
      ∙ ap (moves (saves t (pairs cmds))) here
      ∙ step_moves-pairs t (pair_of cmd) (pairs cmds) (after effect s h)

  -- What a backup that returns no error does to the store.
  pub backup-after :
      (name : String) (env : Env) (server : ServerConfig)
      → lookup name (env [] config_get).servers ≡ some server
      → (backup name env []).0 ≡ ok tt
      → after effect s (backup name env []).1
        ≡ moves
            (saves
              (env ((config_get, env [] config_get) ∷ []) local_time)
              (pairs server.commands.backup))
            s
  unfolding backup
  backup-after name env server known fine =
      let h1 : Trace = (config_get, env [] config_get) ∷ [] in
      let t = env h1 local_time in
      let h2 : Trace = (local_time, t) ∷ h1 in
      let h3 : Trace = (container_inspect name, env h2 (container_inspect name)) ∷ h2 in
      let running = is_running (env h2 (container_inspect name)) in
      let steps = backup_steps-after name t running server.commands.backup false env h3 in
      ground (arith, known, fine, steps)
