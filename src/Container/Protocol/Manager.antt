-- ===== src/Container/Protocol/Manager.antt =====
-- internal/container/container.go: the actions of the manager and the order of calls.
use play_bin.Base.{
  String, Bool, false, not, ◌||◌, List, [], ◌∷◌, ◌<>◌, refl, arith, inl, inr, Bool-cases,
  Option-cases,
}
use play_bin.Base.Dict.{lookup}
use play_bin.Config.{CmdConfig, ComposeConfig}
use play_bin.World.{
  ok, err, is_not_found, Trace, Env, config_get, local_time, container_inspect, container_create,
  container_start, make_dir_all, stat, rsync,
}
use play_bin.World.Laws.{Keeps, Result-cases}
use play_bin.Container.{
  Action, start_action, stop_action, kill_action, backup_action, restore_action, remove_action,
  unknown_action, execute_action,
}
use play_bin.Container.Lifecycle.{
  container_config, host_config, create_and_start, start_compose, start, commands_of, stop,
}
use play_bin.Container.Archive.{
  failed, backup_args, backup_paths, copy_step, backup_step, backup_steps, backup, is_running,
  restore_step, restore_steps, restore,
}
use play_bin.Container.Protocol.{
  MayCall, IsOrderly, send_command-IsOrderly, pause-IsOrderly, remove-IsOrderly, kill-IsOrderly,
  stop_steps-IsOrderly,
}

create_and_start-IsOrderly :
    (n : String) (c : ComposeConfig) (env : Env) (h : Trace)
    → IsOrderly h
    → MayCall (container_create n (container_config c) (host_config c)) h
    → IsOrderly (create_and_start n c env h).1
unfolding create_and_start
create_and_start-IsOrderly n c env h i m =
    let creation = container_create n (container_config c) (host_config c) in
    elim (Result-cases (env h creation)) [
      | inr (e, p) ↦ rw p (m, i)
      | inl (u, p) ↦
          let made : MayCall (container_start n) ((creation, ok tt) ∷ h) =
            (container_config c, host_config c, refl) in
          rw p (ground arith)
    ]

start_compose-IsOrderly : (n : String) (c : ComposeConfig) → Keeps IsOrderly (start_compose n c)
unfolding start_compose
start_compose-IsOrderly n c env h i = elim (Result-cases (env h (container_inspect n))) [
  | inl (a, p) ↦ rw p (ground arith)
  | inr (e, p) ↦ elim (Bool-cases (is_not_found e)) [
    | inl absent ↦
        rw (p, absent)
          (create_and_start-IsOrderly n c env ((container_inspect n, err e) ∷ h) (tt, i)
            (e, refl, absent))
    | inr broken ↦ rw (p, broken) (tt, i)
  ]
]

start-IsOrderly : (n : String) → Keeps IsOrderly (start n)
unfolding start lookup
start-IsOrderly n env h i =
    let cfg = env h config_get in
    elim (Option-cases (lookup n cfg.servers)) [
      | inl p ↦ rw p (tt, i)
      | inr (server, p) ↦ elim (Option-cases server.compose) [
        | inl q ↦ rw (p, q) (tt, i)
        | inr (c, q) ↦
            rw (p, q)
              (ground (arith, start_compose-IsOrderly n c env ((config_get, cfg) ∷ h) (tt, i)))
      ]
    ]

stop-IsOrderly : (n : String) → Keeps IsOrderly (stop n)
unfolding stop lookup
stop-IsOrderly n env h i =
    let cfg = env h config_get in
    elim (Option-cases (lookup n cfg.servers)) [
      | inl p ↦ rw p (ground arith)
      | inr (server, p) ↦ rw p (
          ground (
            arith,
            stop_steps-IsOrderly n (commands_of server.commands.stop) env ((config_get, cfg) ∷ h)
                (tt, i),
          ))
    ]

copy_step-IsOrderly :
    (timestamp src dest_base : String) → Keeps IsOrderly (copy_step timestamp src dest_base)
unfolding copy_step
copy_step-IsOrderly timestamp src dest_base env h i =
    let h₁ : Trace = (make_dir_all dest_base, env h (make_dir_all dest_base)) ∷ h in
    let latest = dest_base <> "/latest" in
    let earlier = env h₁ (stat latest) in
    let h₂ : Trace = (stat latest, earlier) ∷ h₁ in
    let args = backup_args (not (failed earlier)) latest src dest_base timestamp in
    elim (Result-cases (env h₂ (rsync args))) [
      | inr (e, p) ↦ rw p (tt, (tt, (tt, i)))
      | inl (u, p) ↦ rw p ((refl, (args, refl)), (tt, (tt, (tt, (tt, i)))))
    ]

backup_step-IsOrderly :
    (n timestamp : String) (running : Bool) (cmd : CmdConfig)
    → Keeps IsOrderly (backup_step n timestamp running cmd)
unfolding backup_step
backup_step-IsOrderly n timestamp running cmd env h i = elim (Option-cases (backup_paths cmd.arg)) [
  | inl p ↦ rw p (
      ground (
        arith,
        send_command-IsOrderly n (cmd.arg <> "\n") env h i,
        pause-IsOrderly cmd.arg env h i,
      ))
  | inr ((src, dest), p) ↦ rw p (
      ground (
        arith,
        send_command-IsOrderly n (cmd.arg <> "\n") env h i,
        pause-IsOrderly cmd.arg env h i,
        copy_step-IsOrderly timestamp src dest env h i,
      ))
]

backup_steps-IsOrderly :
    (n timestamp : String) (running : Bool) (cmds : List CmdConfig) (has_error : Bool)
    → Keeps IsOrderly (backup_steps n timestamp running cmds has_error)
unfolding backup_steps
backup_steps-IsOrderly n t running [] e env h i = i
backup_steps-IsOrderly n t running (cmd ∷ cmds) e env h i =
    backup_steps-IsOrderly n t running cmds (e || (backup_step n t running cmd env h).0) env
      (backup_step n t running cmd env h).1 (backup_step-IsOrderly n t running cmd env h i)

backup-IsOrderly : (n : String) → Keeps IsOrderly (backup n)
unfolding backup lookup
backup-IsOrderly n env h i =
    let cfg = env h config_get in
    elim (Option-cases (lookup n cfg.servers)) [
      | inl p ↦ rw p (tt, i)
      | inr (server, p) ↦
          let h₁ : Trace = (config_get, cfg) ∷ h in
          let time = env h₁ local_time in
          let h₂ : Trace = (local_time, time) ∷ h₁ in
          let found = env h₂ (container_inspect n) in
          rw p (
            ground (
              arith,
              backup_steps-IsOrderly n time (is_running found) server.commands.backup false env
                  ((container_inspect n, found) ∷ h₂) (tt, (tt, (tt, i))),
            ))
    ]

restore_step-IsOrderly :
    (generation : String) (cmd : CmdConfig) → Keeps IsOrderly (restore_step generation cmd)
unfolding restore_step
restore_step-IsOrderly generation cmd env h i = ground arith

restore_steps-IsOrderly :
    (generation : String) (cmds : List CmdConfig) (has_error : Bool)
    → Keeps IsOrderly (restore_steps generation cmds has_error)
unfolding restore_steps
restore_steps-IsOrderly g [] e env h i = i
restore_steps-IsOrderly g (cmd ∷ cmds) e env h i =
    restore_steps-IsOrderly g cmds (e || (restore_step g cmd env h).0) env
      (restore_step g cmd env h).1 (restore_step-IsOrderly g cmd env h i)

pub restore-IsOrderly : (n generation : String) → Keeps IsOrderly (restore n generation)
unfolding restore lookup
restore-IsOrderly n g env h i =
    let cfg = env h config_get in
    elim (Option-cases (lookup n cfg.servers)) [
      | inl p ↦ ground arith
      | inr (server, p) ↦
          let h₁ : Trace = (config_get, cfg) ∷ h in
          let found = env h₁ (container_inspect n) in
          ground (
            arith,
            restore_steps-IsOrderly g server.commands.backup false env
                ((container_inspect n, found) ∷ h₁) (tt, (tt, i)),
          )
    ]

execute_action-IsOrderly_core : (n : String) (a : Action) → Keeps IsOrderly (execute_action n a)
unfolding execute_action
execute_action-IsOrderly_core n start_action env h i = start-IsOrderly n env h i
execute_action-IsOrderly_core n stop_action env h i = stop-IsOrderly n env h i
execute_action-IsOrderly_core n kill_action env h i = kill-IsOrderly n env h i
execute_action-IsOrderly_core n backup_action env h i = backup-IsOrderly n env h i
execute_action-IsOrderly_core n restore_action env h i = i
execute_action-IsOrderly_core n remove_action env h i = remove-IsOrderly n env h i
execute_action-IsOrderly_core n (unknown_action t) env h i = i

-- Whatever the surroundings answer, an action keeps the order of calls: a container is removed only
-- right after an inspection that found it stopped, created only right after one that did not find
-- it, started only right after its creation succeeded, killed only right after a stop failed, and
-- the link to the latest backup is set only right after the old one was removed, which follows a
-- copy that succeeded.
pub execute_action-IsOrderly :
    (name : String) (action : Action) (env : Env) (h : Trace)
    → IsOrderly h
    → IsOrderly (execute_action name action env h).1
execute_action-IsOrderly name action env h i = execute_action-IsOrderly_core name action env h i
