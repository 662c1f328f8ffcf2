-- ===== src/Api/Handlers.antt =====
-- internal/api/handlers_containers.go: the handlers that act on one container.
use play_bin.Base.{String, Bool, not, Option, none, some, ◌==◌, List, [], if◌then◌else◌}
use play_bin.Base.Dict.{get_or}
use play_bin.Config.{no_user}
use play_bin.Config.Permission.{
  has_permission, container_write, container_execute, perm_start, perm_stop, perm_kill, perm_backup,
  perm_restore, perm_remove,
}
use play_bin.World.{
  Inspect, Result, ok, err, Outcome, read_logs, error_text, M, pure, call, ◌>>=◌, config_get,
  container_inspect,
}
use play_bin.Docker.{send_command}
use play_bin.Container.{
  Action, start_action, stop_action, kill_action, backup_action, remove_action, execute_action,
}
use play_bin.Container.Archive.{restore}
use play_bin.Container.Generations.{list_generations}
use play_bin.Api.Auth.{Request, Reply, failure, success, Sessions, token_of}

-- `containerToPerm`
unfoldable pub container_to_perm : Action → String
container_to_perm start_action = perm_start
container_to_perm stop_action = perm_stop
container_to_perm kill_action = perm_kill
container_to_perm backup_action = perm_backup
container_to_perm remove_action = perm_remove
container_to_perm _ = container_execute

-- The reply to what an operation returned.
unfoldable pub reply_to : Outcome → Reply
reply_to (ok _) = success
reply_to (err e) = failure "500" (error_text e)

-- The test with which the handlers begin: the permission on the container as the request names it.
unfoldable pub granted : Request → Sessions → String → M Bool
granted r sessions perm = do
  cfg ← call config_get
  pure (has_permission (get_or (get_or (token_of r) "" sessions) no_user cfg.users) r.id perm)

-- `Action`
unfoldable pub action_handler : Action → Request → Sessions → M Reply
action_handler action r sessions = do
  allowed ← granted r sessions (container_to_perm action)
  if not allowed
      then pure (failure "403" "Execute permission required")
      else do done ← execute_action r.id action; pure (reply_to done)

-- `RestoreAction`
unfoldable pub restore_handler : Request → Sessions → M Reply
restore_handler r sessions = do
  allowed ← granted r sessions perm_restore
  if not allowed
      then pure (failure "403" "Execute permission required")
      else do done ← restore r.id r.generation; pure (reply_to done)

-- `CmdContainer`: `command` is what the body decodes to.
unfoldable pub cmd_handler : Request → Option String → Sessions → M Reply
cmd_handler r command sessions = do
  allowed ← granted r sessions container_write
  if not allowed then pure (failure "403" "Write permission required") else elim command [
    | none ↦ pure (failure "400" "Invalid Request Body")
    | some text ↦ do done ← send_command r.id text; pure (reply_to done)
  ]

-- `ListBackups`, with the list that is encoded where it succeeds.
unfoldable pub list_backups : Request → M (Reply × List String)
list_backups r = do
  found ← list_generations r.id
  elim found [
    | err e ↦ pure (failure "500" (error_text e), [])
    | ok generations ↦ pure (success, generations)
  ]

-- `InspectContainer`, with what is encoded where it succeeds.
unfoldable pub inspect_handler : Request → M (Reply × Option Inspect)
inspect_handler r = do
  found ← call (container_inspect r.id)
  elim found [
    | err _ ↦ pure (failure "404" "Container Not Found", none)
    | ok i ↦ pure (success, some i)
  ]

-- What `GetContainerLogs` writes: the log as the engine sends it, by `io.Copy`, or without the headers
-- of the two streams, by `stdcopy.StdCopy`.
pub data LogBody : Type 0 where
  no_body : LogBody
  raw : String → LogBody
  demultiplexed : String → LogBody

abbrev pub log_body : Result Inspect → String → LogBody
log_body (ok i) text = if i.tty then raw text else demultiplexed text
log_body (err _) text = demultiplexed text

-- `GetContainerLogs`
unfoldable pub get_logs : Request → M (Reply × LogBody)
get_logs r = do
  logs ← call (read_logs r.id (if r.tail == "" then "100" else r.tail))
  elim logs [
    | err _ ↦ pure (failure "500" "Failed to get logs", no_body)
    | ok text ↦ do found ← call (container_inspect r.id); pure (success, log_body found text)
  ]
