-- ===== src/Container/Lifecycle.antt =====
-- internal/container/container.go: `Start`, `Stop`, `Kill` and `Remove`. A timeout of `none` is the
-- engine's default.
use play_bin.Base.{
  String, Bool, true, false, ◌&&◌, Option, none, some, List, [], ◌∷◌, ◌==◌, ltb, length,
  if◌then◌else◌, ◌<>◌,
}
use play_bin.Base.Dict.{Dict, lookup, insert}
use play_bin.Text.{fields}
use play_bin.Config.{ComposeConfig, StartConfig, CmdConfig}
use play_bin.World.{
  PortBinding, ContainerConfig, HostConfig, Error, fault, wrapped, ok, err, Outcome, is_not_found,
  M, pure, call, ◌>>=◌, ◌>>◌, config_get, container_inspect, container_create, container_start,
  container_stop, container_kill, container_remove, parse_duration, sleep, log,
}
use play_bin.Docker.{send_command, send_exec}

-- `hostConfig.Binds`
bind_mounts : Dict String → List String
bind_mounts [] = []
bind_mounts ((host_path, container_path) ∷ m) = (host_path <> ":" <> container_path) ∷ bind_mounts m

-- The loop over the port mapping: the exposed ports and the bindings, both maps by port.
bind_ports :
    Dict String
    → Dict (Unit {0})
    → Dict (List PortBinding)
    → Dict (Unit {0}) × Dict (List PortBinding)
bind_ports [] exposed bindings = (exposed, bindings)
bind_ports ((host_port, container_port) ∷ m) exposed bindings =
    let port = container_port <> "/tcp" in
    bind_ports m (insert port tt exposed)
      (insert port (record { host_ip = "0.0.0.0"; host_port = host_port } ∷ []) bindings)

entrypoint_of : Option StartConfig → List String
entrypoint_of none = []
entrypoint_of (some c) = if c.entrypoint == "" then [] else fields c.entrypoint

arguments_of : Option StartConfig → List String
arguments_of none = []
arguments_of (some c) = if c.arguments == "" then [] else fields c.arguments

unfoldable pub network_mode : ComposeConfig → String
network_mode c = if c.network.mode == "" then "bridge" else c.network.mode

-- The ports of a container in bridge mode with a mapping; none otherwise.
ports_of : ComposeConfig → Dict (Unit {0}) × Dict (List PortBinding)
unfolding network_mode bind_ports
ports_of c =
    if network_mode c == "bridge" && ltb 0 (length c.network.mapping)
    then bind_ports c.network.mapping [] []
    else ([], [])

unfoldable pub container_config : ComposeConfig → ContainerConfig
unfolding entrypoint_of arguments_of ports_of
container_config c = record {
  image = c.image;
  tty = true;
  open_stdin = true;
  entrypoint = entrypoint_of c.command;
  cmd = arguments_of c.command;
  exposed_ports = (ports_of c).0;
}

unfoldable pub host_config : ComposeConfig → HostConfig
unfolding bind_mounts network_mode ports_of
host_config c = record {
  binds = bind_mounts c.mount;
  restart_policy = if c.restart == "" then "no" else c.restart;
  network_mode = network_mode c;
  port_bindings = (ports_of c).1;
}

-- The creation and the start of the container.
unfoldable pub create_and_start : String → ComposeConfig → M Outcome
create_and_start name compose = do
  created ← call (container_create name (container_config compose) (host_config compose))
  elim created [
    | err e ↦ pure (err (wrapped "failed to create container" e))
    | ok _ ↦ do
      started ← call (container_start name)
      elim started [
        | err e ↦ pure (err (wrapped "failed to start container" e))
        | ok _ ↦ pure (ok tt)
      ]
  ]

already : String → Bool → Error
already name true =
    fault ("container " <> name <> " is already running. please stop and remove it first")
already name false =
    fault ("container " <> name <> " already exists. please remove it manually to apply new config")

-- `Start` for a server whose compose settings name an image.
unfoldable pub start_compose : String → ComposeConfig → M Outcome
unfolding already
start_compose name compose = do
  r ← call (container_inspect name)
  elim r [
    | ok i ↦ pure (err (already name i.running))
    | err e ↦
        if is_not_found e
        then create_and_start name compose
        else pure (err (wrapped "failed to inspect container" e))
  ]

-- `Start`
unfoldable pub start : String → M Outcome
start name = do
  cfg ← call config_get
  elim (lookup name cfg.servers) [
    | none ↦ pure (ok tt)
    | some server ↦ elim server.compose [
      | none ↦ pure (ok tt)
      | some compose ↦ if compose.image == "" then pure (ok tt) else start_compose name compose
    ]
  ]

-- A pause, if its length can be parsed.
unfoldable pub pause : String → M (Unit {0})
pause text = do d ← call (parse_duration text); elim d [ none ↦ pure tt | some n ↦ call (sleep n) ]

-- One step of the stop sequence. Its failure is only logged.
unfoldable pub stop_step : String → CmdConfig → M (Unit {0})
unfolding pause
stop_step name cmd =
    if cmd.kind == "attach"
    then send_command name cmd.arg >> pure tt
    else if cmd.kind == "exec"
    then send_exec name ("/bin/sh" ∷ "-c" ∷ cmd.arg ∷ []) >> pure tt
    else if cmd.kind == "log"
    then call (log ("[" <> name <> "] " <> cmd.arg))
    else if cmd.kind == "sleep"
    then pause cmd.arg
    else pure tt

unfoldable pub stop_steps : String → List CmdConfig → M (Unit {0})
stop_steps name [] = pure tt
stop_steps name (cmd ∷ cmds) = stop_step name cmd >> stop_steps name cmds

unfoldable pub commands_of : Option (List CmdConfig) → List CmdConfig
commands_of none = []
commands_of (some cmds) = cmds

-- `Stop`
unfoldable pub stop : String → M Outcome
stop name = do
  cfg ← call config_get
  elim (lookup name cfg.servers) [
    | none ↦ call (container_stop name none)
    | some server ↦ do
      stop_steps name (commands_of server.commands.stop)
      r ← call (container_stop name none)
      elim r [ err e ↦ pure (err (wrapped "failed to stop container" e)) | ok _ ↦ pure (ok tt) ]
  ]

-- `Kill`
unfoldable pub kill : String → M Outcome
kill name = do
  r ← call (container_stop name (some 30))
  elim r [
    | ok _ ↦ pure (ok tt)
    | err _ ↦ do
      k ← call (container_kill name "SIGKILL")
      elim k [ ok _ ↦ pure (ok tt) | err e ↦ pure (err (wrapped "failed to kill container" e)) ]
  ]

-- `Remove`
unfoldable pub remove : String → M Outcome
remove name = do
  r ← call (container_inspect name)
  elim r [
    | err e ↦
        if is_not_found e
        then pure (ok tt)
        else pure (err (wrapped "failed to check container state" e))
    | ok i ↦
        if i.running
        then pure (err (fault "container is running. please stop/kill it before remove"))
        else do
          removed ← call (container_remove name)
          elim removed [
            | err e ↦ pure (err (wrapped "failed to remove container" e))
            | ok _ ↦ pure (ok tt)
          ]
  ]
