-- ===== src/Discord/Commands.antt =====
-- internal/discord/bot.go: `onInteractionCreate` and `onMessageCreate`.
pub mod Laws
use play_bin.Base.{
  String, Bool, true, false, not, ◌||◌, Option, none, some, List, [], ◌∷◌, ◌==◌, if◌then◌else◌,
  ◌<>◌,
}
use play_bin.Base.Dict.{Dict, lookup, get_or}
use play_bin.Text.{replace_all}
use play_bin.Config.{UserConfig, Config, no_server}
use play_bin.Config.Permission.{
  has_permission, container_read, container_write, container_execute, perm_start, perm_stop,
  perm_kill, perm_backup, perm_remove,
}
use play_bin.World.{fault, ok, err, Outcome, M, pure, call, ◌>>=◌, config_get, interaction_defer}
use play_bin.Docker.{send_command}
use play_bin.Container.{
  Action, start_action, stop_action, kill_action, backup_action, remove_action, action_of,
  execute_action,
}
use play_bin.Container.Archive.{restore}
use play_bin.Container.Generations.{list_generations}

-- A slash command with its options; Discord sends the options that are required.
pub data Command : Type 0 where
  action_command : String → Option String → Command
  backups_command : Command
  cmd_command : String → Command
  other_command : Command

-- The parts of an interaction that the bot reads: the ids of the member's user and of the user.
pub record Interaction : Type 0 where
  pub channel : String
  pub member : Option String
  pub user : Option String
  pub command : Command

pub data Response : Type 0 where
  -- no server has the channel
  ignored : Response
  -- the reply that names the missing permission
  denied : String → Response
  -- Discord did not take the deferred reply
  unanswered : Response
  -- the deferred reply, edited to what an action returned
  finished : String → Outcome → Response
  -- the deferred reply, edited to the list of the generations
  listed : List String → Response
  -- the deferred reply, as it is
  pending : Response

or_empty : Option String → String
or_empty none = ""
or_empty (some t) = t

unfoldable pub user_id : Interaction → String
unfolding or_empty
user_id i = elim i.member [ some id ↦ id | none ↦ or_empty i.user ]

-- `containerToPerm`, of this package
unfoldable pub action_perm : Action → String
action_perm start_action = perm_start
action_perm stop_action = perm_stop
action_perm kill_action = perm_kill
action_perm backup_action = perm_backup
action_perm remove_action = perm_remove
action_perm _ = container_execute

unfoldable pub command_perm : Command → String
command_perm (action_command act _) = action_perm (action_of act)
command_perm backups_command = container_read
command_perm (cmd_command _) = container_write
command_perm other_command = container_read

-- The loop over the users, which ends at the first one with the Discord id.
unfoldable pub is_allowed : Dict UserConfig → String → String → String → Bool
is_allowed [] id server perm = false
is_allowed ((_, u) ∷ users) id server perm =
    let rest = is_allowed users id server perm in
    if u.discord == id then has_permission u server perm else rest

-- The branch of `restore`.
unfoldable pub restore_command : String → String → M Response
restore_command server generation =
    if generation == ""
    then pure (finished "restore" (err (fault "世代の指定が必要です。/backups で一覧を確認してください")))
    else do r ← restore server generation; pure (finished "restore" r)

-- The switch over the command, after the deferred reply.
unfoldable pub perform : String → Command → M Response
unfolding or_empty
perform server (action_command act generation) =
    if act == "restore"
    then restore_command server (or_empty generation)
    else do r ← execute_action server (action_of act); pure (finished act r)
perform server backups_command = do
  r ← list_generations server
  elim r [ err e ↦ pure (finished "backups" (err e)) | ok generations ↦ pure (listed generations) ]
perform server (cmd_command text) = do
  r ← send_command server (text <> "\n")
  pure (finished "command" r)
perform server other_command = pure pending

-- `onInteractionCreate`; `channels` is `ChannelToServer`.
unfoldable pub on_interaction : Dict String → Interaction → M Response
on_interaction channels i = elim (lookup i.channel channels) [
  | none ↦ pure ignored
  | some server ↦ do
    cfg ← call config_get
    if not (is_allowed cfg.users (user_id i) server (command_perm i.command))
        then pure (denied (command_perm i.command))
        else do
          r ← call interaction_defer
          elim r [ err _ ↦ pure unanswered | ok _ ↦ perform server i.command ]
]

pub record Message : Type 0 where
  pub author_is_bot : Bool
  pub author_id : String
  pub author_name : String
  pub own_id : String
  pub channel : String
  pub content : String

-- The template with the author's name and then the content filled in.
unfoldable pub chat_text : String → String → String → String
chat_text template name content =
    replace_all (replace_all template "${user}" name) "${message}" content

unfoldable pub send_chat : String → Option String → String → String → M (Unit {0})
send_chat server none name content = pure tt
send_chat server (some template) name content =
    if template == ""
    then pure tt
    else do call_result ← send_command server (chat_text template name content <> "\n"); pure tt

-- `onMessageCreate`
unfoldable pub on_message : Dict String → Message → M (Unit {0})
unfolding send_chat
on_message channels m =
    if m.author_is_bot || m.author_id == m.own_id
    then pure tt
    else elim (lookup m.channel channels) [
      | none ↦ pure tt
      | some server ↦ do
        cfg ← call config_get
        send_chat server (get_or server no_server cfg.servers).commands.message m.author_name
            m.content
    ]
