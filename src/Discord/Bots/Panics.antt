-- ===== src/Discord/Bots/Panics.antt =====
-- internal/discord/bot.go: the log lines of `SyncBots`, each of which slices the last four bytes of a
-- token, which panics for a shorter one.
pub mod Laws
use play_bin.Base.{ℕ, String, Bool, true, false, List, [], ◌∷◌, ◌++◌, ltb, contains, if◌then◌else◌}
use play_bin.Base.Dict.{Dict, lookup}
use play_bin.Config.{Config}
use play_bin.Discord.Bots.{
  Session, Connection, not_created, not_opened, opened, Bots, is_live, open_bot, tokens_of,
  start_bots,
}

-- The token that is logged after the attempt to open its session.
unfoldable pub log_opened : Connection → String → List String → List String
log_opened not_created token rest = rest
log_opened not_opened token rest = token ∷ rest
log_opened opened token rest = token ∷ rest

-- The tokens that the loop over the active ones logs.
unfoldable pub started_log : (String → Connection) → List String → Dict Session → List String
started_log connect [] sessions = []
started_log connect (token ∷ tokens) sessions =
    let live = is_live (lookup token sessions) in
    let rest =
      started_log connect tokens
        (if live then sessions else open_bot (connect token) token sessions) in
    if live then rest else log_opened (connect token) token rest

-- The tokens that the loop over the sessions logs.
unfoldable pub stopped_log : List String → Dict Session → List String
stopped_log active [] = []
stopped_log active ((token, s) ∷ sessions) =
    let rest = stopped_log active sessions in if contains token active then rest else token ∷ rest

-- The tokens that `SyncBots` logs, in their order.
unfoldable pub logged_tokens : (String → Connection) → Config → ℕ → Bots → List String
logged_tokens connect cfg last_loaded bots =
    if ltb bots.updated_at last_loaded
    then started_log connect (tokens_of cfg.servers) bots.sessions
      ++ stopped_log (tokens_of cfg.servers)
          (start_bots connect (tokens_of cfg.servers) bots.sessions)
    else []

-- Whether one of them is too short; `size` is the number of bytes of a text.
unfoldable pub any_too_short : (String → ℕ) → List String → Bool
any_too_short size [] = false
any_too_short size (token ∷ tokens) = if ltb (size token) 4 then true else any_too_short size tokens

-- Whether `SyncBots` panics.
unfoldable pub sync_bots_panics : (String → ℕ) → (String → Connection) → Config → ℕ → Bots → Bool
sync_bots_panics size connect cfg last_loaded bots =
    any_too_short size (logged_tokens connect cfg last_loaded bots)
