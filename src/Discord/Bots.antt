-- ===== src/Discord/Bots.antt =====
-- internal/discord/bot.go: `SyncBots`. Its log lines, which slice the last four bytes of a token, are
-- the matter of Discord/Bots/Panics.
pub mod Laws
pub mod Panics
use play_bin.Base.{
  ℕ, String, Bool, Option, none, some, List, [], ◌∷◌, ◌==◌, ltb, contains, if◌then◌else◌,
}
use play_bin.Base.Dict.{Dict, lookup, insert}
use play_bin.Config.{ServerConfig, DiscordConfig, Config}

-- A value of `Sessions`: an open session, or nil after a failed opening.
pub data Session : Type 0 where
  live nil_session : Session

-- What the Discord library answers for a token: `discordgo.New` fails, `Open` fails, or the session
-- is open.
pub data Connection : Type 0 where
  not_created not_opened opened : Connection

-- The part of `BotManager` that `SyncBots` keeps.
pub record Bots : Type 0 where
  pub sessions : Dict Session
  pub channel_to_server : Dict String
  pub updated_at : ℕ

add_channel : String → Option DiscordConfig → Dict String → Dict String
add_channel name none channels = channels
add_channel name (some d) channels =
    if d.channel == "" then channels else insert d.channel name channels

-- `newChannelToServer`
unfoldable pub channels_of : Dict ServerConfig → Dict String → Dict String
unfolding add_channel
channels_of [] channels = channels
channels_of ((name, s) ∷ servers) channels =
    channels_of servers (add_channel name s.discord channels)

-- `activeTokens[token] = true`
unfoldable pub add_token : Option DiscordConfig → List String → List String
add_token none tokens = tokens
add_token (some d) tokens =
    if d.token == "" then tokens else if contains d.token tokens then tokens else d.token ∷ tokens

-- `activeTokens`, as the list of its keys.
unfoldable pub tokens_of : Dict ServerConfig → List String
unfolding add_token
tokens_of [] = []
tokens_of ((_, s) ∷ servers) = add_token s.discord (tokens_of servers)

-- A token without an open session.
unfoldable pub open_bot : Connection → String → Dict Session → Dict Session
open_bot not_created token sessions = sessions
open_bot not_opened token sessions = insert token nil_session sessions
open_bot opened token sessions = insert token live sessions

unfoldable pub is_live : Option Session → Bool
is_live (some live) = Bool.true
is_live _ = Bool.false

-- The loop over the active tokens; `connect` is what the library answers.
unfoldable pub start_bots : (String → Connection) → List String → Dict Session → Dict Session
unfolding is_live
start_bots connect [] sessions = sessions
start_bots connect (token ∷ tokens) sessions =
    start_bots connect tokens (
      if is_live (lookup token sessions) then sessions else open_bot (connect token) token sessions)

-- The loop over the sessions, of which those of inactive tokens are deleted.
unfoldable pub stop_bots : List String → Dict Session → Dict Session
stop_bots active [] = []
stop_bots active ((token, s) ∷ sessions) =
    let rest = stop_bots active sessions in
    if contains token active then (token, s) ∷ rest else rest

-- `SyncBots`, for the configuration and its time of loading.
unfoldable pub sync_bots : (String → Connection) → Config → ℕ → Bots → Bots
sync_bots connect cfg last_loaded bots =
    if ltb bots.updated_at last_loaded
    then record {
      sessions =
          stop_bots (tokens_of cfg.servers)
            (start_bots connect (tokens_of cfg.servers) bots.sessions);
      channel_to_server = channels_of cfg.servers [];
      updated_at = last_loaded;
    }
    else bots
