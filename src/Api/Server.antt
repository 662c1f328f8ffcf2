-- ===== src/Api/Server.antt =====
-- internal/api/server.go: the server as a whole: `Routes` with all that the mux serves, and `Start`.
-- The file server and the WebDAV library are parameters. The path is one that `http.ServeMux` takes
-- as it is: it answers a path that is not clean, and `/dav`, by a redirect of its own.
pub mod Laws
pub mod Holders
pub mod Guards
use play_bin.Base.{ℕ, String, Option, none, some, [], ◌==◌, if◌then◌else◌}
use play_bin.Text.{strip_prefix}
use play_bin.World.{Error, M, pure, call, ◌>>=◌, config_get, serve_http}
use play_bin.Api.Auth.{Request, Reply, Sessions, login}
use play_bin.Api.Routes.{Handled, serve}
use play_bin.Webdav.Server.{DavReply, handler}

-- A request with all that some handler reads of it: the path, the parameters and the token, the
-- header of the basic authentication, and what the body decodes to at the login and for a command;
-- and the random text that the login draws.
pub record Incoming : Type 0 where
  pub path : String
  pub request : Request
  pub basic : Option (String × String)
  pub creds : Option (String × String)
  pub random : Option String
  pub command : Option String

pub data Served (A B : Type 0) : Type 0 where
  login_reply : Reply → Served A B
  api_reply : Handled → Served A B
  dav_reply : DavReply A → Served A B
  file_reply : B → Served A B

-- `make(map[string]string)` of `NewServer`
abbrev pub no_sessions : Sessions
no_sessions = []

module _ {A B : Type 0} (library : String → String → M A) (files : String → M B) (rounds : ℕ) where
  -- The patterns `/dav/` and `/`, which a path without a handler of its own falls to.
  unfoldable pub serve_rest : Incoming → M (Served A B)
  serve_rest i = elim (strip_prefix "/dav/" i.path) [
    | none ↦ do f ← files i.path; pure (file_reply f)
    | some _ ↦ do d ← handler library i.basic i.path; pure (dav_reply d)
  ]

  unfoldable pub serve_open : Option Handled → Incoming → M (Served A B)
  serve_open (some done) i = pure (api_reply done)
  serve_open none i = serve_rest i

  unfoldable pub serve_login : Incoming → Sessions → M (Served A B × Sessions)
  serve_login i sessions = do
    (reply, after) ← login i.creds i.random sessions
    pure (login_reply reply, after)

  unfoldable pub serve_other : Incoming → Sessions → M (Served A B × Sessions)
  serve_other i sessions = do
    done ← serve rounds i.path i.request i.command sessions
    served ← serve_open done i
    pure (served, sessions)

  -- `Routes`: the reply, and the sessions after it, which only the login changes.
  unfoldable pub serve_any : Incoming → Sessions → M (Served A B × Sessions)
  serve_any i sessions =
      if i.path == "/api/login" then serve_login i sessions else serve_other i sessions

-- `Start`: the error that it panics with, or `none` where it returns, as the server is disabled.
-- `http.ListenAndServe` comes back with an error only.
unfoldable pub start : M (Option Error)
start = do
  cfg ← call config_get
  if cfg.http_listen == ""
      then pure none
      else do e ← call (serve_http cfg.http_listen); pure (some e)
