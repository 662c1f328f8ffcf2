-- ===== src/Process.antt =====
-- main.go: the start of the process, and its end.
use play_bin.Base.{String, Option, none, List, [], ◌∷◌, ◌≡◌, ◌↔◌, arith, eq_iff}
use play_bin.World.{
  Error, Task, run_bot_manager, run_log_forwarder_manager, sftp_start, Trace, Env, M, call, ◌>>=◌,
  ◌>>◌, config_get, config_reload, launch, serve_http,
}
use play_bin.Docker.{init}
use play_bin.Sftp.Connections.{new_server, generate_host_key, load_key}
use play_bin.Api.Server.{start}

-- `BotManager.Start`
unfoldable pub start_managers : M (Unit {0})
start_managers = call (launch run_bot_manager) >> call (launch run_log_forwarder_manager)

-- What `main` prepares: the result of `docker.Init` is only logged.
unfoldable pub prepare : M (Option String)
prepare = call config_reload >> init >> new_server

-- `main` up to the web server
unfoldable pub main_services : M (Unit {0})
main_services = do key ← prepare; start_managers; call (launch (sftp_start key))

-- `main`, which panics with an error, or returns where the result is `none`. In Go both end the process
-- with all of its goroutines.
unfoldable pub main : M (Option Error)
main = main_services >> start

-- The goroutines that were started, the latest first.
abbrev pub launched : Trace → List Task
launched [] = []
launched ((launch task, r) ∷ h) = task ∷ launched h
launched (e ∷ h) = launched h

-- Whenever the web server took the main goroutine, these had been started, and no others.
abbrev pub Serves : List Task → Trace → Type 0
Serves tasks [] = Unit
Serves tasks ((serve_http a, r) ∷ h) = (launched h ≡ tasks) × Serves tasks h
Serves tasks (e ∷ h) = Serves tasks h

abbrev pub services : Option String → List Task
services key = sftp_start key ∷ run_log_forwarder_manager ∷ run_bot_manager ∷ []

prepare-launched :
    (tasks : List Task) (env : Env)
    → (launched (prepare env []).1 ≡ []) × Serves tasks (prepare env []).1
unfolding prepare init new_server generate_host_key load_key
prepare-launched tasks env = ground arith

-- The calls before `as.Start()`
abbrev pub started : Env → Trace
started env = (main_services env []).1

abbrev pub http_address : Env → Trace → String
http_address env h = (env h config_get).http_listen

-- From the start of the process: whatever the surroundings answer, when the web server takes the main
-- goroutine, the two managers of Discord and the SFTP server, with the host key that was prepared,
-- have been started, each once; they are also started where there is no web server; and `main`
-- returns, which ends the process and with it these three, exactly when the configuration that it
-- reads names no address for HTTP.
pub main-Serves :
    (env : Env)
    → Serves (services (prepare env []).0) (main env []).1
      × (launched (main env []).1 ≡ services (prepare env []).0)
      × (((main env []).0 ≡ none) ↔ (http_address env (started env) ≡ ""))
unfolding main main_services start start_managers
main-Serves env =
    let (none_yet, unserved) = prepare-launched (services (prepare env []).0) env in
    (
      ground (arith, none_yet, unserved),
      ground (arith, none_yet),
      ground (arith, eq_iff (http_address env (started env)) ""),
    )
