-- ===== src/Discord/Commands/Laws.antt =====
-- internal/discord/bot.go: who may run a command, what a command may do, and what a chat message
-- sends.

use text.Mathlib.TextLemmas.{append-nil}
use play_bin.Base.{
  String, false, some, [], ◌∷◌, ◌==◌, ◌<>◌, ◌≡◌, refl, arith, eq_iff, inl, inr, All, Bool-cases,
  Option-cases,
}
use play_bin.Base.Dict.{Dict, lookup}
use play_bin.Text.{Lacks, replace_all, replace_all-front}
use play_bin.Config.{UserConfig}
use play_bin.Config.Permission.{has_permission}
use play_bin.World.{Trace, Env, config_get, interaction_defer}
use play_bin.Container.Generations.Kept.{list_generations-Keeps}
use play_bin.World.Laws.{Keeps}
use play_bin.Container.{action_of}
use play_bin.Container.Generations.{list_generations}
use play_bin.Container.Protocol.{IsOrderly, send_command-IsOrderly}
use play_bin.Container.Protocol.Manager.{restore-IsOrderly, execute_action-IsOrderly}
use play_bin.Discord.Commands.{
  action_command, backups_command, cmd_command, other_command, Command, Interaction, denied,
  or_empty, user_id, command_perm, is_allowed, restore_command, perform, on_interaction, chat_text,
}

-- No user with the Discord id has the permission on the server.
abbrev pub NoneHas : Dict UserConfig → String → String → String → Type 0
NoneHas users id server perm =
    All (λ e. e.1.discord ≡ id → has_permission e.1 server perm ≡ false) users

is_allowed-NoneHas :
    (users : Dict UserConfig) (id server perm : String)
    → NoneHas users id server perm
    → is_allowed users id server perm ≡ false
unfolding is_allowed
is_allowed-NoneHas [] id server perm none_has = refl
is_allowed-NoneHas ((name, u) ∷ users) id server perm (here, there) =
    let rest = is_allowed-NoneHas users id server perm there in
    elim (Bool-cases (u.discord == id)) [
      | inl same ↦ let no = here ((eq_iff u.discord id).0 same) in ground arith
      | inr other ↦ ground arith
    ]

-- In a channel of a server, a command of someone whose Discord id belongs to no user with the
-- command's permission on that server is denied, and its only call is the one that reads the
-- configuration.
pub on_interaction_denied :
    (channels : Dict String) (i : Interaction) (server : String) (env : Env) (h : Trace)
    → lookup i.channel channels ≡ some server
    → NoneHas (env h config_get).users (user_id i) server (command_perm i.command)
    → on_interaction channels i env h
      ≡ (denied (command_perm i.command), (config_get, env h config_get) ∷ h)
unfolding on_interaction lookup
on_interaction_denied channels i server env h p none_has =
    let no =
      is_allowed-NoneHas (env h config_get).users (user_id i) server (command_perm i.command)
        none_has in
    ground arith

list_generations-IsOrderly : (name : String) → Keeps IsOrderly (list_generations name)
list_generations-IsOrderly name =
    list_generations-Keeps IsOrderly (λ dir r h i. (tt, i)) (λ cfg h i. (tt, i)) name

perform-IsOrderly : (server : String) (c : Command) → Keeps IsOrderly (perform server c)
unfolding perform restore_command
perform-IsOrderly server (action_command act g) env h i = ground (
  arith,
  restore-IsOrderly server (or_empty g) env h i,
  execute_action-IsOrderly server (action_of act) env h i,
)
perform-IsOrderly server backups_command env h i =
    ground (arith, list_generations-IsOrderly server env h i)
perform-IsOrderly server (cmd_command text) env h i =
    send_command-IsOrderly server (text <> "\n") env h i
perform-IsOrderly server other_command env h i = i

-- A Discord command keeps the order of calls to the engine and the host that every action keeps.
pub on_interaction-IsOrderly :
    (channels : Dict String) (i : Interaction) (env : Env) (h : Trace)
    → IsOrderly h
    → IsOrderly (on_interaction channels i env h).1
unfolding on_interaction lookup
on_interaction-IsOrderly channels i env h o = elim (Option-cases (lookup i.channel channels)) [
  | inl p ↦ ground arith
  | inr (server, p) ↦
      let cfg = env h config_get in
      let next : Trace = (config_get, cfg) ∷ h in
      let reply = env next interaction_defer in
      ground (
        arith,
        perform-IsOrderly server i.command env ((interaction_defer, reply) ∷ next) (tt, (tt, o)),
      )
]

-- A template that ends with the placeholder of the message, and has no other, sends the content as
-- it is, line ends included.
pub chat_text_verbatim :
    (front name content : String)
    → Lacks b'$' front
    → chat_text (front <> "${message}") name content ≡ front <> content
unfolding chat_text
chat_text_verbatim front name content lacks =
    let unchanged : replace_all "${message}" "${user}" name ≡ "${message}" =
      unfold replace_all in refl in
    let filled : replace_all "${message}" "${message}" content ≡ content <> "" =
      unfold replace_all in refl in
    rw (
      replace_all-front "$" "{user}" name front "${message}" lacks,
      unchanged,
      replace_all-front "$" "{message}" content front "${message}" lacks,
      filled,
      append-nil content,
    )
