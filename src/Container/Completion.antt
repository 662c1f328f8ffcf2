-- ===== src/Container/Completion.antt =====
-- internal/container/container.go: what the result of `Stop`, `Backup` and `Restore` says of the
-- calls that they made.
use play_bin.Base.{
  ℕ, suc, ◌∙◌, String, Bool, true, false, ◌||◌, Option, none, some, List, [], ◌∷◌, ◌==◌,
  if◌then◌else◌, ◌<>◌, ◌≡◌, refl, arith, inl, inr, Option-cases,
}
use play_bin.Base.Dict.{lookup}
use play_bin.Config.{CmdConfig, ServerConfig}
use play_bin.World.{
  Event, Trace, Env, ok, err, config_get, local_time, container_inspect, container_stop,
  container_attach, conn_write, parse_duration, sleep, rsync,
}
use play_bin.Docker.{send_command}
use play_bin.Container.Lifecycle.{stop, pause}
use play_bin.Container.Archive.{
  failed, is_running, backup_paths, copy_step, backup_step, backup_steps, backup_failed, backup,
  restore_step, restore_steps, restore,
}
use play_bin.Container.Protocol.{Latest}

-- The last call of `Stop` is the engine's stop of the container, whatever became of the steps of
-- the stop sequence before it.
pub stop-Latest :
    (name : String) (env : Env) (h : Trace)
    → Latest (λ e. e.0 ≡ container_stop name none) (stop name env h).1
unfolding stop lookup
stop-Latest name env h = ground arith

-- Whether a copy failed.
abbrev pub copy_failed : Event → Bool
copy_failed (rsync args, err x) = true
copy_failed _ = false

abbrev pub is_copy : Event → Bool
is_copy (rsync args, r) = true
is_copy _ = false

abbrev pub is_none {ℓ} : {A : Type ℓ} → Option A → Bool
is_none none = true
is_none (some _) = false

abbrev pub any_failed : Trace → Bool
any_failed [] = false
any_failed (e ∷ h) = copy_failed e || any_failed h

send_command-any_failed :
    (id text : String) (env : Env) (h : Trace)
    → any_failed (send_command id text env h).1 ≡ any_failed h
unfolding send_command
send_command-any_failed id text env h = ground arith

pause-any_failed :
    (text : String) (env : Env) (h : Trace) → any_failed (pause text env h).1 ≡ any_failed h
unfolding pause
pause-any_failed text env h = ground arith

copy_step-any_failed :
    (timestamp src dest : String) (env : Env) (h : Trace)
    → any_failed (copy_step timestamp src dest env h).1
      ≡ ((copy_step timestamp src dest env h).0 || any_failed h)
unfolding copy_step
copy_step-any_failed t src dest env h = ground arith

backup_step-any_failed :
    (name timestamp : String) (running : Bool) (cmd : CmdConfig) (env : Env) (h : Trace)
    → any_failed (backup_step name timestamp running cmd env h).1
      ≡ ((backup_step name timestamp running cmd env h).0 || any_failed h)
unfolding backup_step
backup_step-any_failed n t running cmd env h = elim (Option-cases (backup_paths cmd.arg)) [
  | inl p ↦ rw p (
      ground
        (arith, send_command-any_failed n (cmd.arg <> "\n") env h, pause-any_failed cmd.arg env h))
  | inr ((src, dest), p) ↦ rw p (
      ground (
        arith,
        send_command-any_failed n (cmd.arg <> "\n") env h,
        pause-any_failed cmd.arg env h,
        copy_step-any_failed t src dest env h,
      ))
]

restore_step-any_failed :
    (generation : String) (cmd : CmdConfig) (env : Env) (h : Trace)
    → any_failed (restore_step generation cmd env h).1
      ≡ ((restore_step generation cmd env h).0 || any_failed h)
unfolding restore_step
restore_step-any_failed g cmd env h = ground arith

backup_steps-any_failed :
    (name timestamp : String) (running : Bool) (cmds : List CmdConfig) (e : Bool) (env : Env)
    (h : Trace)
    → any_failed h ≡ e
    → any_failed (backup_steps name timestamp running cmds e env h).1
      ≡ (backup_steps name timestamp running cmds e env h).0
unfolding backup_steps
backup_steps-any_failed n t running [] e env h i = i
backup_steps-any_failed n t running (cmd ∷ cmds) e env h i =
    backup_steps-any_failed n t running cmds (e || (backup_step n t running cmd env h).0) env
      (backup_step n t running cmd env h).1
      (ground (arith, backup_step-any_failed n t running cmd env h))

restore_steps-any_failed :
    (generation : String) (cmds : List CmdConfig) (e : Bool) (env : Env) (h : Trace)
    → any_failed h ≡ e
    → any_failed (restore_steps generation cmds e env h).1
      ≡ (restore_steps generation cmds e env h).0
unfolding restore_steps
restore_steps-any_failed g [] e env h i = i
restore_steps-any_failed g (cmd ∷ cmds) e env h i =
    restore_steps-any_failed g cmds (e || (restore_step g cmd env h).0) env
      (restore_step g cmd env h).1 (ground (arith, restore_step-any_failed g cmd env h))

-- For a configured server, and where no copy had failed before, `Backup` returns its error exactly
-- when one of its copies failed, and nil otherwise.
pub backup_complete :
    (name : String) (env : Env) (h : Trace) (server : ServerConfig)
    → lookup name (env h config_get).servers ≡ some server
    → any_failed h ≡ false
    → (backup name env h).0
      ≡ (if any_failed (backup name env h).1 then err backup_failed else ok tt)
unfolding backup lookup
backup_complete n env h server p i =
    let cfg = env h config_get in
    let h₁ : Trace = (config_get, cfg) ∷ h in
    let time = env h₁ local_time in
    let h₂ : Trace = (local_time, time) ∷ h₁ in
    let found = env h₂ (container_inspect n) in
    rw p (
      ground (
        arith,
        backup_steps-any_failed n time (is_running found) server.commands.backup false env
            ((container_inspect n, found) ∷ h₂) i,
      ))

-- Whether `Restore` refuses: no generation, a server that is not configured, or a container that
-- the inspection finds running.
abbrev pub refuses : String → String → Env → Trace → Bool
refuses name generation env h =
    let h' : Trace = (config_get, env h config_get) ∷ h in
    generation == ""
    || is_none (lookup name (env h config_get).servers)
    || is_running (env h' (container_inspect name))

-- A restore that is not refused, where no copy had failed before, returns nil exactly when none of
-- its copies failed.
pub restore_complete :
    (name generation : String) (env : Env) (h : Trace)
    → refuses name generation env h ≡ false
    → any_failed h ≡ false
    → failed (restore name generation env h).0 ≡ any_failed (restore name generation env h).1
unfolding restore lookup
restore_complete n g env h accepted i = elim (Option-cases (lookup n (env h config_get).servers)) [
  | inl p ↦ ground arith
  | inr (server, p) ↦
      let h₁ : Trace = (config_get, env h config_get) ∷ h in
      let found = env h₁ (container_inspect n) in
      ground (
        arith,
        restore_steps-any_failed g server.commands.backup false env
            ((container_inspect n, found) ∷ h₁) i,
      )
]

-- Whether a call concerns the processes inside the container, or waits for them.
abbrev pub is_interaction : Event → Bool
is_interaction (container_attach _, r) = true
is_interaction (conn_write _ _, r) = true
is_interaction (parse_duration _, r) = true
is_interaction (sleep _, r) = true
is_interaction _ = false

abbrev pub interactions : Trace → ℕ
interactions [] = 0
interactions (e ∷ h) = if is_interaction e then suc (interactions h) else interactions h

copy_step-interactions :
    (timestamp src dest : String) (env : Env) (h : Trace)
    → interactions (copy_step timestamp src dest env h).1 ≡ interactions h
unfolding copy_step
copy_step-interactions t src dest env h = ground arith

backup_step-interactions :
    (name timestamp : String) (cmd : CmdConfig) (env : Env) (h : Trace)
    → interactions (backup_step name timestamp false cmd env h).1 ≡ interactions h
unfolding backup_step
backup_step-interactions n t cmd env h = elim (Option-cases (backup_paths cmd.arg)) [
  | inl p ↦ rw p (ground arith)
  | inr ((src, dest), p) ↦ rw p (ground (arith, copy_step-interactions t src dest env h))
]

backup_steps-interactions :
    (name timestamp : String) (cmds : List CmdConfig) (e : Bool) (env : Env) (h : Trace)
    → interactions (backup_steps name timestamp false cmds e env h).1 ≡ interactions h
unfolding backup_steps
backup_steps-interactions n t [] e env h = refl
backup_steps-interactions n t (cmd ∷ cmds) e env h =
    backup_steps-interactions n t cmds (e || (backup_step n t false cmd env h).0) env
      (backup_step n t false cmd env h).1
    ∙ backup_step-interactions n t cmd env h

-- The trace when `Backup` inspects the container.
abbrev pub clock_read : Env → Trace → Trace
clock_read env h =
    let h' : Trace = (config_get, env h config_get) ∷ h in (local_time, env h' local_time) ∷ h'

-- A backup that does not find its container running sends no command to it and does not wait.
pub backup_quiet :
    (name : String) (env : Env) (h : Trace)
    → is_running (env (clock_read env h) (container_inspect name)) ≡ false
    → interactions (backup name env h).1 ≡ interactions h
unfolding backup lookup
backup_quiet n env h stopped = elim (Option-cases (lookup n (env h config_get).servers)) [
  | inl p ↦ ground arith
  | inr (server, p) ↦
      let h₁ : Trace = (config_get, env h config_get) ∷ h in
      let time = env h₁ local_time in
      let h₂ : Trace = (local_time, time) ∷ h₁ in
      rw (p, stopped)
        (ground (
          arith,
          backup_steps-interactions n time server.commands.backup false env
              ((container_inspect n, env h₂ (container_inspect n)) ∷ h₂),
        ))
]
