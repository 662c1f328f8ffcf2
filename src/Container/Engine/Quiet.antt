-- ===== src/Container/Engine/Quiet.antt =====
-- internal/container/container.go: the parts of the actions that leave a container's state.
use play_bin.Base.{
  String, Bool, false, ◌||◌, List, [], ◌∷◌, ◌<>◌, ◌≡◌, refl, arith, inl, inr, Option-cases, ◌∙◌,
}
use play_bin.Base.Dict.{lookup}
use play_bin.Config.{CmdConfig}
use play_bin.World.{Trace, Env, config_get, local_time, container_inspect}
use play_bin.Docker.{send_command, send_exec}
use play_bin.Container.Lifecycle.{pause, stop_step, stop_steps}
use play_bin.Container.Archive.{
  backup_paths, is_running, copy_step, backup_step, backup_steps, backup,
}
use play_bin.Container.Engine.{Status, status}

module _ (name : String) (initial : Status) where
  send_command-status :
      (id text : String) (env : Env) (h : Trace)
      → status name initial (send_command id text env h).1 ≡ status name initial h
  unfolding send_command
  send_command-status id text env h = ground arith

  send_exec-status :
      (id : String) (cmd : List String) (env : Env) (h : Trace)
      → status name initial (send_exec id cmd env h).1 ≡ status name initial h
  unfolding send_exec
  send_exec-status id cmd env h = ground arith

  pause-status :
      (text : String) (env : Env) (h : Trace)
      → status name initial (pause text env h).1 ≡ status name initial h
  unfolding pause
  pause-status text env h = ground arith

  stop_step-status :
      (n : String) (cmd : CmdConfig) (env : Env) (h : Trace)
      → status name initial (stop_step n cmd env h).1 ≡ status name initial h
  unfolding stop_step
  stop_step-status n cmd env h = ground (
    arith,
    send_command-status n cmd.arg env h,
    send_exec-status n ("/bin/sh" ∷ "-c" ∷ cmd.arg ∷ []) env h,
    pause-status cmd.arg env h,
  )

  pub stop_steps-status :
      (n : String) (cmds : List CmdConfig) (env : Env) (h : Trace)
      → status name initial (stop_steps n cmds env h).1 ≡ status name initial h
  unfolding stop_steps
  stop_steps-status n [] env h = refl
  stop_steps-status n (cmd ∷ cmds) env h =
      stop_steps-status n cmds env (stop_step n cmd env h).1 ∙ stop_step-status n cmd env h

  copy_step-status :
      (timestamp src dest : String) (env : Env) (h : Trace)
      → status name initial (copy_step timestamp src dest env h).1 ≡ status name initial h
  unfolding copy_step
  copy_step-status timestamp src dest env h = ground arith

  backup_step-status :
      (n timestamp : String) (up : Bool) (cmd : CmdConfig) (env : Env) (h : Trace)
      → status name initial (backup_step n timestamp up cmd env h).1 ≡ status name initial h
  unfolding backup_step
  backup_step-status n t up cmd env h = elim (Option-cases (backup_paths cmd.arg)) [
    | inl p ↦
        rw p (
          ground (arith, send_command-status n (cmd.arg <> "\n") env h, pause-status cmd.arg env h))
    | inr ((src, dest), p) ↦ rw p (
        ground (
          arith,
          send_command-status n (cmd.arg <> "\n") env h,
          pause-status cmd.arg env h,
          copy_step-status t src dest env h,
        ))
  ]

  backup_steps-status :
      (n timestamp : String) (up : Bool) (cmds : List CmdConfig) (e : Bool) (env : Env) (h : Trace)
      → status name initial (backup_steps n timestamp up cmds e env h).1 ≡ status name initial h
  unfolding backup_steps
  backup_steps-status n t up [] e env h = refl
  backup_steps-status n t up (cmd ∷ cmds) e env h =
      backup_steps-status n t up cmds (e || (backup_step n t up cmd env h).0) env
        (backup_step n t up cmd env h).1
      ∙ backup_step-status n t up cmd env h

  pub backup-status :
      (n : String) (env : Env) (h : Trace)
      → status name initial (backup n env h).1 ≡ status name initial h
  unfolding backup lookup
  backup-status n env h = elim (Option-cases (lookup n (env h config_get).servers)) [
    | inl p ↦ ground arith
    | inr (server, p) ↦
        let h₁ : Trace = (config_get, env h config_get) ∷ h in
        let time = env h₁ local_time in
        let h₂ : Trace = (local_time, time) ∷ h₁ in
        let found = env h₂ (container_inspect n) in
        ground (
          arith,
          backup_steps-status n time (is_running found) server.commands.backup false env
              ((container_inspect n, found) ∷ h₂),
        )
  ]
