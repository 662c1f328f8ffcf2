-- ===== src/Tests/Bot.antt =====
-- internal/discord/bot.go: concrete runs and instances.
use native.Mathlib.Omega.{arith}
use play_bin.Base.{
  ℕ, ◌<◌, ◌↔◌, false, Option, ◌==◌, contains, if◌then◌else◌, String, true, none, some, [], ◌∷◌, ◌≡◌,
  refl,
}
use play_bin.Base.Dict.{Dict, lookup}
use play_bin.World.{ok, config_get}
use play_bin.Container.{action_of}
use play_bin.Config.Permission.{has_permission}
use play_bin.Discord.Commands.{
  action_command, Interaction, denied, user_id, action_perm, command_perm, is_allowed,
  on_interaction,
}
use play_bin.Discord.Commands.Laws.{on_interaction_denied}
use play_bin.Discord.Bots.{live, Connection, not_opened, Bots, tokens_of, sync_bots}
use play_bin.Discord.Bots.Laws.{settled, sync_bots-settled}
use play_bin.Discord.Rules.{LogRule, RulesState}
use play_bin.Discord.Commands.{finished}
use play_bin.Discord.Embeds.{success_embed, list_lines, embed_of}
use play_bin.Text.Decimal.{decimal}
use play_bin.Discord.Bots.{start_bots, add_token, is_live}
use play_bin.Discord.Bots.Panics.{
  sync_bots_panics, logged_tokens, any_too_short, started_log, stopped_log,
}
use play_bin.Discord.Bots.Panics.Laws.{IsLogged, sync_bots_panics_iff}
use play_bin.Tests.Sample.{sample, sample_config}

abbrev channels : Dict String
channels = ("100", "mc") ∷ ("200", "web") ∷ []

abbrev asks : String → String → Interaction
asks channel act = record {
  channel = channel;
  member = some "42";
  user = none;
  command = action_command act none;
}

computed : Unit {0}
unfolding lookup action_of user_id action_perm command_perm has_permission is_allowed on_interaction
computed = tt

denied_tests :
    ((on_interaction channels (asks "200" "stop") sample []).0 ≡ denied "container.execute.stop")
    × (is_allowed sample_config.users "42" "mc" "container.execute.stop" ≡ true)
unfolding computed
denied_tests = (refl, refl)

on_interaction_denied_example :
    on_interaction channels (asks "200" "stop") sample []
    ≡ (denied (command_perm (action_command "stop" none)), (config_get, sample_config) ∷ [])
unfolding computed
on_interaction_denied_example =
    on_interaction_denied channels (asks "200" "stop") "web" sample [] refl ((λ same. refl), tt)

abbrev idle : Bots
idle = record { sessions = ("old", live) ∷ []; channel_to_server = []; updated_at = 0 }

abbrev refused : String → Connection
refused token = not_opened

-- Every token has three bytes.
abbrev short : String → ℕ
short token = 3

panics_tests :
    (sync_bots_panics short refused sample_config 5 idle ≡ true)
    × (sync_bots_panics (λ token. 4) refused sample_config 5 idle ≡ false)
unfolding sync_bots_panics logged_tokens any_too_short started_log stopped_log start_bots tokens_of
    add_token lookup is_live
panics_tests = (refl, refl)

sync_bots_panics_iff_example :
    (sync_bots_panics short refused sample_config 5 idle ≡ true)
    ↔ ((t : String) × (short t < 4) × (idle.updated_at < 5) × IsLogged refused sample_config idle t)
sync_bots_panics_iff_example = sync_bots_panics_iff short refused sample_config 5 idle

sync_bots-settled_example : lookup "old" (sync_bots refused sample_config 5 idle).sessions ≡ (
    if contains "old" (tokens_of sample_config.servers)
    then settled (refused "old") (lookup "old" idle.sessions)
    else none)
sync_bots-settled_example = sync_bots-settled "old" refused sample_config 5 idle (omega arith)

-- Expressions stand for their own compiled form, except for one that is not well-formed.
abbrev compile : String → Option String
compile pat = if pat == "(" then none else some pat

abbrev rule : String → LogRule String String
rule pat = record { regexp = pat ∷ []; webhook = "joined" ∷ []; res = [] }

abbrev loaded : Dict (RulesState String String)
loaded =
    (
      "log.json",
      record {
        rules = record { regexp = "a" ∷ []; webhook = []; res = "a" ∷ [] } ∷ [];
        last_loaded = 3;
      },
    )
    ∷ []

embed_tests :
    (embed_of "mc" (action_command "stop" none) (finished "stop" (ok tt))
      ≡ some (success_embed "stop" "実行が完了しました"))
    × (list_lines 22 19 ("a" ∷ "b" ∷ "c" ∷ []) ≡ "`a`\n\n...他 2 件")
unfolding embed_of list_lines decimal
embed_tests = (refl, refl)
