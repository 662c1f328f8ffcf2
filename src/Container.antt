-- ===== src/Container.antt =====
-- internal/container/container.go: the `Manager` of the containers.
pub mod Lifecycle
pub mod Archive
pub mod Protocol
pub mod RoundTrip
pub mod Completion
pub mod Restored
pub mod Engine
pub mod Generations
use play_bin.Base.{String, ◌==◌, if◌then◌else◌}
use play_bin.World.{Error, fault, wrapped, other, err, Outcome, M, pure}
use play_bin.Container.Lifecycle.{start, stop, kill, remove}
use play_bin.Container.Archive.{backup}

pub data Action : Type 0 where
  start_action : Action
  stop_action : Action
  kill_action : Action
  backup_action : Action
  restore_action : Action
  remove_action : Action
  -- any other text
  unknown_action : String → Action

-- `container.Action(text)`
unfoldable pub action_of : String → Action
action_of text =
    if text == "start"
    then start_action
    else if text == "stop"
    then stop_action
    else if text == "kill"
    then kill_action
    else if text == "backup"
    then backup_action
    else if text == "restore"
    then restore_action
    else if text == "remove"
    then remove_action
    else unknown_action text

-- `ExecuteAction`
unfoldable pub execute_action : String → Action → M Outcome
execute_action name start_action = start name
execute_action name stop_action = stop name
execute_action name kill_action = kill name
execute_action name backup_action = backup name
execute_action name restore_action =
    pure (err (fault "restore requires a generation parameter. use dedicated restore handler"))
execute_action name remove_action = remove name
execute_action name (unknown_action text) = pure (err (wrapped "unknown action" (other text)))
