-- ===== src/Api/Routes.antt =====
-- internal/api/server.go: the routes that stand behind the middleware `Auth`. The login, the static
-- files and WebDAV are the matter of Api/Server.
pub mod Open
pub mod Documented
pub mod Powerless
use play_bin.Base.{ℕ, String, false, Option, none, some, ◌∷◌, ◌==◌, if◌then◌else◌, ◌≡◌, arith}
use play_bin.Base.Dict.{lookup, get_or}
use play_bin.Config.{no_user}
use play_bin.Config.Permission.{has_permission, container_write, perm_restore}
use play_bin.World.{Trace, Env, M, pure, ◌>>=◌, config_get}
use play_bin.Container.{
  Action, start_action, stop_action, kill_action, backup_action, remove_action,
}
use play_bin.Api.Auth.{Request, Reply, failure, Sessions, token_of, auth}
use play_bin.Api.Auth.Laws.{auth_unknown}
use play_bin.Api.Handlers.{
  container_to_perm, granted, action_handler, restore_handler, cmd_handler, list_backups,
  inspect_handler, get_logs,
}
use play_bin.Api.Terminal.{Terminal, terminal}
use play_bin.Api.Stats.{Ending, stats}
use play_bin.Api.Listing.{list_containers}

-- The endpoints behind the middleware.
pub data Endpoint : Type 0 where
  containers inspect backups restore_route cmd logs : Endpoint
  act : Action → Endpoint
  terminal_socket stats_socket : Endpoint

-- What becomes of a request: a reply, or the outcome of a WebSocket's handler.
pub data Handled : Type 0 where
  replied : Reply → Handled
  terminal_end : Terminal → Handled
  stats_end : Ending → Handled

-- `mux.HandleFunc`, for the exact paths.
unfoldable pub route : String → Option Endpoint
route path =
    if path == "/api/containers"
    then some containers
    else if path == "/api/container/inspect"
    then some inspect
    else if path == "/api/container/start"
    then some (act start_action)
    else if path == "/api/container/stop"
    then some (act stop_action)
    else if path == "/api/container/kill"
    then some (act kill_action)
    else if path == "/api/container/backup"
    then some (act backup_action)
    else if path == "/api/container/backups"
    then some backups
    else if path == "/api/container/restore"
    then some restore_route
    else if path == "/api/container/remove"
    then some (act remove_action)
    else if path == "/api/container/cmd"
    then some cmd
    else if path == "/api/container/logs"
    then some logs
    else if path == "/ws/terminal"
    then some terminal_socket
    else if path == "/ws/stats"
    then some stats_socket
    else none

-- The reply without its body.
pub status_of {ℓ} : {A : Type ℓ} → M (Reply × A) → M Handled
status_of m = do r ← m; pure (replied r.0)

pub reply_of : M Reply → M Handled
reply_of m = do r ← m; pure (replied r)

-- The handler of an endpoint; `command` is what the body of a `cmd` request decodes to, and `rounds`
-- is for the loop of the statistics.
unfoldable pub handle : ℕ → Endpoint → Request → Option String → Sessions → M Handled
unfolding status_of reply_of
handle rounds containers r command sessions = status_of (list_containers r sessions)
handle rounds inspect r command sessions = status_of (inspect_handler r)
handle rounds backups r command sessions = status_of (list_backups r)
handle rounds logs r command sessions = status_of (get_logs r)
handle rounds restore_route r command sessions = reply_of (restore_handler r sessions)
handle rounds cmd r command sessions = reply_of (cmd_handler r command sessions)
handle rounds (act a) r command sessions = reply_of (action_handler a r sessions)
handle rounds terminal_socket r command sessions = do
  t ← terminal r r.mode r.tail sessions
  pure (terminal_end t)
handle rounds stats_socket r command sessions = do e ← stats rounds r sessions; pure (stats_end e)

-- `s.Auth(next)`
unfoldable pub with_auth : ℕ → Endpoint → Request → Option String → Sessions → M Handled
with_auth rounds e r command sessions = do
  verdict ← auth r sessions
  elim verdict [ some reply ↦ pure (replied reply) | none ↦ handle rounds e r command sessions ]

-- The request is answered by the mux; `none` where another handler has the path.
unfoldable pub serve : ℕ → String → Request → Option String → Sessions → M (Option Handled)
serve rounds path r command sessions = elim (route path) [
  | none ↦ pure none
  | some e ↦ do done ← with_auth rounds e r command sessions; pure (some done)
]

-- Without a session, no path of the API makes any call: the reply is 401 for every endpoint.
pub serve_unknown :
    (rounds : ℕ) (path : String) (e : Endpoint) (r : Request) (command : Option String)
    (s : Sessions) (env : Env) (h : Trace)
    → route path ≡ some e
    → lookup (token_of r) s ≡ none
    → serve rounds path r command s env h
      ≡ (some (replied (failure "401" "Authentication required")), h)
unfolding serve with_auth
serve_unknown rounds path e r command s env h p q = ground (arith, auth_unknown r s env h q)

-- The permission that an endpoint asks of the session's user on the container as it was named.
unfoldable pub required_perm : Endpoint → Option String
required_perm restore_route = some perm_restore
required_perm cmd = some container_write
required_perm (act a) = some (container_to_perm a)
required_perm _ = none

-- An endpoint that acts on a container, for a session's user who lacks its permission on the
-- container as the request names it: the handler replies 403, and its only call is the one that
-- reads the configuration.
pub handle_denied :
    (rounds : ℕ) (e : Endpoint) (r : Request) (command : Option String) (s : Sessions) (env : Env)
    (h : Trace) (perm : String)
    → required_perm e ≡ some perm
    → has_permission (get_or (get_or (token_of r) "" s) no_user (env h config_get).users) r.id perm
      ≡ false
    → (text : String) × (handle rounds e r command s env h
        ≡ (replied (failure "403" text), (config_get, env h config_get) ∷ h))
unfolding handle required_perm restore_handler cmd_handler action_handler granted
handle_denied rounds containers r command s env h perm p denied = cc
handle_denied rounds inspect r command s env h perm p denied = cc
handle_denied rounds backups r command s env h perm p denied = cc
handle_denied rounds logs r command s env h perm p denied = cc
handle_denied rounds terminal_socket r command s env h perm p denied = cc
handle_denied rounds stats_socket r command s env h perm p denied = cc
handle_denied rounds restore_route r command s env h perm p denied =
    ("Execute permission required", ground arith)
handle_denied rounds cmd r command s env h perm p denied =
    ("Write permission required", ground arith)
handle_denied rounds (act a) r command s env h perm p denied =
    ("Execute permission required", ground arith)
