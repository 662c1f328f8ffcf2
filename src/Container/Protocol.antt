-- ===== src/Container/Protocol.antt =====
-- internal/container/container.go: the order in which the container manager may call the Docker
-- client and the host.
pub mod Manager
use play_bin.Base.{
  ℕ, String, Bool, true, false, Option, none, some, List, [], ◌∷◌, ◌==◌, if◌then◌else◌, ◌≡◌, refl,
  arith, inl, inr, Bool-cases,
}
use play_bin.Base.Dict.{lookup}
use play_bin.Config.{CmdConfig, ComposeConfig, ServerConfig}
use play_bin.World.{
  ContainerConfig, HostConfig, Inspect, Error, Result, ok, err, is_not_found, Call, Answer, Event,
  Trace, Env, M, container_inspect, container_create, container_start, container_stop,
  container_kill, container_remove, symlink, remove_file, rsync,
}
use play_bin.World.Laws.{Keeps, Keeps-bind, Result-cases}
use play_bin.Docker.{send_command, send_exec}
use play_bin.Container.Lifecycle.{pause, stop_step, stop_steps, start, stop, kill, remove}
use play_bin.Container.Archive.{
  copy_step, backup_step, backup_steps, backup, restore_step, restore_steps, restore,
}

-- The latest event of the trace satisfies `P`.
abbrev pub Latest : (Event → Type 0) → Trace → Type 0
Latest P [] = ⊥
Latest P (e ∷ h) = P e

-- What must directly precede a call:
-- a removal, an inspection that found the container stopped; a creation, one that found no such
-- container; a start, the creation of the container; a kill, a stop that failed; the new link
-- `latest`, the removal of the old one after a copy that succeeded.
abbrev pub MayCall : Call → Trace → Type 0
MayCall (container_remove n) h =
    Latest (λ e. (i : Inspect) × (e ≡ (container_inspect n, ok i)) × (i.running ≡ false)) h
MayCall (container_create n _ _) h =
    Latest (λ e. (x : Error) × (e ≡ (container_inspect n, err x)) × (is_not_found x ≡ true)) h
MayCall (container_start n) h =
    Latest (λ e. (c : ContainerConfig) × (k : HostConfig) × (e ≡ (container_create n c k, ok tt))) h
MayCall (container_kill n _) h =
    Latest (λ e. (t : Option ℕ) × (x : Error) × (e ≡ (container_stop n t, err x))) h
MayCall (symlink _ link) [] = ⊥
MayCall (symlink _ link) (e ∷ h) =
    (e.0 ≡ remove_file link) × Latest (λ d. (args : List String) × (d ≡ (rsync args, ok tt))) h
MayCall _ h = Unit

-- Every call of the trace was allowed when it was made.
abbrev pub IsOrderly : Trace → Type 0
IsOrderly [] = Unit
IsOrderly ((c, r) ∷ h) = MayCall c h × IsOrderly h

pub send_command-IsOrderly : (id text : String) → Keeps IsOrderly (send_command id text)
unfolding send_command
send_command-IsOrderly id text env h i = ground arith

pub send_exec-IsOrderly : (id : String) (cmd : List String) → Keeps IsOrderly (send_exec id cmd)
unfolding send_exec
send_exec-IsOrderly id cmd env h i = ground arith

pub pause-IsOrderly : (text : String) → Keeps IsOrderly (pause text)
unfolding pause
pause-IsOrderly text env h i = ground arith

pub remove-IsOrderly : (n : String) → Keeps IsOrderly (remove n)
unfolding remove
remove-IsOrderly n env h i = elim (Result-cases (env h (container_inspect n))) [
  | inr (e, p) ↦ rw p (ground arith)
  | inl (a, p) ↦ elim (Bool-cases a.running) [
    | inl run ↦ rw (p, run) (ground arith)
    | inr stopped ↦
        let calm : MayCall (container_remove n) ((container_inspect n, ok a) ∷ h) =
          (a, refl, stopped) in
        rw (p, stopped) (ground arith)
  ]
]

pub kill-IsOrderly : (n : String) → Keeps IsOrderly (kill n)
unfolding kill
kill-IsOrderly n env h i = elim (Result-cases (env h (container_stop n (some 30)))) [
  | inl (a, p) ↦ rw p (ground arith)
  | inr (e, p) ↦
      let refused : MayCall (container_kill n "SIGKILL") ((container_stop n (some 30), err e) ∷ h) =
        (some 30, e, refl) in
      rw p (ground arith)
]

stop_step-IsOrderly : (n : String) (cmd : CmdConfig) → Keeps IsOrderly (stop_step n cmd)
unfolding stop_step
stop_step-IsOrderly n cmd env h i = ground (
  arith,
  send_command-IsOrderly n cmd.arg env h i,
  send_exec-IsOrderly n ("/bin/sh" ∷ "-c" ∷ cmd.arg ∷ []) env h i,
  pause-IsOrderly cmd.arg env h i,
)

pub stop_steps-IsOrderly :
    (n : String) (cmds : List CmdConfig) → Keeps IsOrderly (stop_steps n cmds)
unfolding stop_steps
stop_steps-IsOrderly n [] env h i = i
stop_steps-IsOrderly n (cmd ∷ cmds) env h i =
    stop_steps-IsOrderly n cmds env (stop_step n cmd env h).1 (stop_step-IsOrderly n cmd env h i)
