-- ===== src/World.antt =====
-- What the program asks of its surroundings (the Docker client, the host's files and rsync, the
-- clock, the configuration cache), and the state that its operations pass on.
--
-- The surroundings are an `Env`: any function that answers a call from the calls made and answered
-- before it. Theorems range over every `Env`, so the answers may change between two calls, as they
-- do when other clients of the Docker engine or other goroutines act in between.
-- The state is the `Trace` of the calls with their answers, the latest first.
pub mod Laws
use play_bin.Base.{ℕ, String, Bool, true, false, Option, List, [], ◌∷◌, ◌<>◌}
use play_bin.Base.Dict.{Dict}
use play_bin.Config.{Config}
use play_bin.Json.{Json, Fields}

-- Go's errors. `not_found` is what `errdefs.IsNotFound` recognises; `other` is any other error of
-- foreign code; `fault` is made by the program, and `wrapped` is `fmt.Errorf("…: %w", err)`.
pub data Error : Type 0 where
  not_found : Error
  other : String → Error
  fault : String → Error
  wrapped : String → Error → Error
  -- `os.ErrPermission`, `os.ErrNotExist`, `os.ErrInvalid` and `io.EOF`
  permission : Error
  not_exist : Error
  invalid : Error
  eof : Error
  -- internal/vfs/vfs.go: `ErrVfsRoot` and `ErrVfsContainerRoot`
  vfs_root : Error
  vfs_container_root : Error

pub data Result {ℓ} (A : Type ℓ) : Type ℓ where
  ok : A → Result A
  err : Error → Result A

-- `errdefs.IsNotFound`, which looks through wrapped errors.
unfoldable pub is_not_found : Error → Bool
is_not_found not_found = true
is_not_found (wrapped _ e) = is_not_found e
is_not_found _ = false

-- `err.Error()`
unfoldable pub error_text : Error → String
error_text not_found = "not found"
error_text (other t) = t
error_text (fault t) = t
error_text (wrapped t e) = t <> ": " <> error_text e
error_text permission = "permission denied"
error_text not_exist = "file does not exist"
error_text invalid = "invalid argument"
error_text eof = "EOF"
error_text vfs_root = "vfs_root"
error_text vfs_container_root = "vfs_container_root"

-- Go's `error` result: `ok tt` is nil.
abbrev pub Outcome : Type 0
Outcome = Result (Unit {0})

-- The fields of `ctypes.Config`, `ctypes.HostConfig`, mounts and directory entries that the program
-- sets or reads.
pub record PortBinding : Type 0 where
  pub host_ip : String
  pub host_port : String

pub record ContainerConfig : Type 0 where
  pub image : String
  pub tty : Bool
  pub open_stdin : Bool
  pub entrypoint : List String
  pub cmd : List String
  pub exposed_ports : Dict (Unit {0})

pub record HostConfig : Type 0 where
  pub binds : List String
  pub restart_policy : String
  pub network_mode : String
  pub port_bindings : Dict (List PortBinding)

pub record Mount : Type 0 where
  pub source : String
  pub destination : String

pub record Inspect : Type 0 where
  pub name : String
  pub running : Bool
  pub tty : Bool
  pub mounts : List Mount

-- `os.FileInfo`
pub record FileInfo : Type 0 where
  pub name : String
  pub is_dir : Bool

-- `ctypes.Summary`
pub record Summary : Type 0 where
  pub id : String
  pub names : List String
  pub state : String

-- `mem.VirtualMemoryStat`, whose byte counts are of 64 bits; a float is the text that encodes it.
pub record Memory : Type 0 where
  pub used_percent : String
  pub total : ℕ
  pub available : ℕ

-- A rule of a log setting, with its compiled expressions as their texts.
pub record Rule : Type 0 where
  pub webhook : List Json
  pub res : List String

pub record DirEntry : Type 0 where
  pub name : String
  pub is_dir : Bool

-- The flags of `os.OpenFile` that the program sets or tests.
pub record OpenFlags : Type 0 where
  pub wronly : Bool
  pub rdwr : Bool
  pub append : Bool
  pub create : Bool
  pub trunc : Bool

abbrev pub read_only : OpenFlags
read_only = record { wronly = false; rdwr = false; append = false; create = false; trunc = false }

-- The goroutines that `main` starts: the two loops that `BotManager.Start` begins, and the SFTP server
-- with its host key.
pub data Task : Type 0 where
  run_bot_manager run_log_forwarder_manager : Task
  sftp_start : Option String → Task

pub data Call : Type 0 where
  -- internal/config: `LoadedConfig.Get` and `LoadedConfig.Reload`
  config_get : Call
  config_reload : Call
  -- the Docker client
  container_inspect : String → Call
  container_list : Call
  container_create : String → ContainerConfig → HostConfig → Call
  container_start : String → Call
  container_stop : String → Option ℕ → Call
  container_kill : String → String → Call
  container_remove : String → Call
  container_attach : String → Call
  conn_write : String → String → Call
  exec_create : String → List String → Call
  exec_attach : String → Call
  exec_drain : String → Call
  exec_inspect : String → Call
  -- the host
  parse_duration : String → Call
  sleep : ℕ → Call
  local_time : Call
  make_dir_all : String → Call
  stat : String → Call
  file_info : String → Call
  read_dir : String → Call
  rsync : List String → Call
  remove_file : String → Call
  remove_all : String → Call
  symlink : String → String → Call
  open_file : String → OpenFlags → Call
  rename : String → String → Call
  log : String → Call
  -- the start of a server: `ssh-keygen` for a path, the content of a file, `ssh.ParsePrivateKey`, and
  -- a port
  keygen : String → Call
  read_file : String → Call
  parse_key : String → Call
  listen : String → Call
  -- `client.NewClientWithOpts`, and `http.ListenAndServe` for an address
  docker_client : Call
  serve_http : String → Call
  -- the deferred response to a Discord interaction
  interaction_defer : Call
  -- the registration of a slash command
  register_command : String → Call
  -- the streams of internal/api: the logs of a container as a whole and as they come, with the
  -- number of lines, a shell in it, its statistics, and the WebSocket of the request
  read_logs : String → String → Call
  follow_logs : String → String → Call
  shell_create : String → Call
  shell_attach : String → Call
  container_stats : String → Call
  decode_stats : Call
  virtual_memory : Call
  cpu_percent : Call
  ws_upgrade : Call
  ws_write : Fields → Call
  -- the forwarder of internal/discord: whether its context is cancelled, the next line, the rules
  -- that `getLogRules` returns, a webhook request with its response's
  -- body
  ctx_done : Call
  scan_line : Call
  log_rules : String → Call
  post_webhook : String → Json → Call
  response_close : Call
  reader_close : Call
  -- the start of a goroutine
  launch : Task → Call

-- The type of a call's answer.
abbrev pub Answer : Call → Type 0
Answer config_get = Config
Answer config_reload = Unit
Answer (container_inspect _) = Result Inspect
Answer container_list = Result (List Summary)
Answer (container_create _ _ _) = Outcome
Answer (container_start _) = Outcome
Answer (container_stop _ _) = Outcome
Answer (container_kill _ _) = Outcome
Answer (container_remove _) = Outcome
Answer (container_attach _) = Outcome
Answer (conn_write _ _) = Outcome
Answer (exec_create _ _) = Result String
Answer (exec_attach _) = Outcome
Answer (exec_drain _) = Unit
Answer (exec_inspect _) = Result ℕ
Answer (parse_duration _) = Option ℕ
Answer (sleep _) = Unit
Answer local_time = String
Answer (make_dir_all _) = Outcome
Answer (stat _) = Outcome
Answer (file_info _) = Result FileInfo
Answer (read_dir _) = Result (List DirEntry)
Answer (rsync _) = Outcome
Answer (remove_file _) = Outcome
Answer (remove_all _) = Outcome
Answer (symlink _ _) = Outcome
Answer (open_file _ _) = Outcome
Answer (rename _ _) = Outcome
Answer (log _) = Unit
Answer (keygen _) = Outcome
Answer (read_file _) = Result String
Answer (parse_key _) = Result String
Answer (listen _) = Outcome
Answer docker_client = Outcome
Answer (serve_http _) = Error
Answer interaction_defer = Outcome
Answer (register_command _) = Outcome
Answer (read_logs _ _) = Result String
Answer (follow_logs _ _) = Outcome
Answer (shell_create _) = Result String
Answer (shell_attach _) = Outcome
Answer (container_stats _) = Outcome
Answer decode_stats = Result Fields
Answer virtual_memory = Option Memory
Answer cpu_percent = List String
Answer ws_upgrade = Outcome
Answer (ws_write _) = Outcome
Answer ctx_done = Bool
Answer scan_line = Option String
Answer (log_rules _) = List Rule
Answer (post_webhook _ _) = Outcome
Answer response_close = Unit
Answer reader_close = Unit
Answer (launch _) = Unit

-- A call with its answer.
abbrev pub Event : Type 0
Event = (c : Call) × Answer c

abbrev pub Trace : Type 0
Trace = List Event

abbrev pub Env : Type 0
Env = Trace → (c : Call) → Answer c

-- An operation of the program.
abbrev pub M {ℓ} : Type ℓ → Type ℓ
M A = Env → Trace → A × Trace

abbrev pub pure {ℓ} : {A : Type ℓ} → A → M A
pure a env h = (a, h)

abbrev pub call : (c : Call) → M (Answer c)
call c env h = let r = env h c in (r, (c, r) ∷ h)

infixl 5 ◌>>=◌ ◌>>◌
abbrev pub ◌>>=◌ {ℓ κ} : {A : Type ℓ} {B : Type κ} → M A → (A → M B) → M B
◌>>=◌ m f env h = let (a, h') = m env h in f a env h'

abbrev pub ◌>>◌ {ℓ κ} : {A : Type ℓ} {B : Type κ} → M A → M B → M B
m >> k = m >>= λ _. k
