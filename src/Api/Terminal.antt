-- ===== src/Api/Terminal.antt =====
-- internal/api/handlers_ws.go: `TerminalHandler` up to the WebSocket. What the two copying goroutines
-- do then is the matter of Api/Terminal/Link.
pub mod Link
pub mod Laws
use play_bin.Base.{String, Bool, true, false, not, ◌==◌, if◌then◌else◌}
use play_bin.Base.Dict.{get_or}
use play_bin.Config.{UserConfig, no_user}
use play_bin.Config.Permission.{has_permission, container_read, container_write}
use play_bin.World.{
  Inspect, Result, ok, err, M, pure, call, ◌>>=◌, config_get, container_inspect, follow_logs,
  shell_create, shell_attach, ws_upgrade,
}
use play_bin.Api.Auth.{Request, Reply, failure, Sessions, token_of}

-- What the switch over the mode leaves: a reply, nothing at all, or the stream of the container,
-- which is nil for any other mode; with `isTty`.
pub data Opening : Type 0 where
  replied : Reply → Opening
  unreplied : Opening
  stream : Bool → Opening
  no_stream : Bool → Opening

-- What becomes of the request: the last one is the WebSocket, with whether there is a stream, and
-- `isTty`.
pub data Terminal : Type 0 where
  refused : Reply → Terminal
  dropped : Terminal
  linked : Bool → Bool → Terminal

abbrev pub tty_of : Result Inspect → Bool
tty_of (ok i) = i.tty
tty_of (err _) = false

-- The mode `exec`
unfoldable pub open_shell : UserConfig → String → M Opening
open_shell user id =
    if not (has_permission user id container_write)
    then pure (replied (failure "403" "Write permission required"))
    else do
      created ← call (shell_create id)
      elim created [
        | err _ ↦ pure unreplied
        | ok exec ↦ do
          attached ← call (shell_attach exec)
          elim attached [ err _ ↦ pure unreplied | ok _ ↦ pure (stream true) ]
      ]

-- The mode `logs`
unfoldable pub open_logs : UserConfig → String → String → Bool → M Opening
open_logs user id tail is_tty =
    if not (has_permission user id container_read)
    then pure (replied (failure "403" "Read permission required"))
    else do
      logs ← call (follow_logs id (if tail == "" then "all" else tail))
      elim logs [
        | err _ ↦ pure (replied (failure "500" "Failed to get logs"))
        | ok _ ↦ pure (stream is_tty)
      ]

unfoldable pub open_stream : UserConfig → String → String → String → Bool → M Opening
open_stream user id mode tail is_tty =
    if mode == "exec"
    then open_shell user id
    else if mode == "logs"
    then open_logs user id tail is_tty
    else pure (no_stream is_tty)

unfoldable pub upgrade : Bool → Bool → M Terminal
upgrade has_stream is_tty = do
  r ← call ws_upgrade
  elim r [ err _ ↦ pure dropped | ok _ ↦ pure (linked has_stream is_tty) ]

unfoldable pub connect : Opening → M Terminal
connect (replied reply) = pure (refused reply)
connect unreplied = pure dropped
connect (stream is_tty) = upgrade true is_tty
connect (no_stream is_tty) = upgrade false is_tty

-- `TerminalHandler`; `mode` and `tail` are parameters of the query.
unfoldable pub terminal : Request → String → String → Sessions → M Terminal
terminal r mode tail sessions = do
  found ← call (container_inspect r.id)
  if get_or (token_of r) "" sessions == ""
      then pure (refused (failure "401" "Unauthorized"))
      else do
        cfg ← call config_get
        opened ←
            open_stream (get_or (get_or (token_of r) "" sessions) no_user cfg.users) r.id mode tail
              (tty_of found)
        connect opened
