-- ===== src/Discord/Forwarders.antt =====
-- internal/discord/forwarder.go: `SyncLogForwarders`. The state is the map of the active
-- forwarders; the changes are the goroutines that are cancelled and started, in their order.
pub mod Laws
pub mod Live
use play_bin.Base.{
  String, Bool, true, false, not, ◌||◌, Option, none, some, List, [], ◌∷◌, ◌++◌, ◌==◌, contains,
  if◌then◌else◌,
}
use play_bin.Base.Dict.{Dict, lookup, insert, erase}
use play_bin.Config.{ServerConfig, DiscordConfig}

-- `forwarderState`, without the cancel function, which is the forwarder's own.
pub record Forwarder : Type 0 where
  pub log_setting : String
  pub webhook_url : String

pub data Change : Type 0 where
  cancelled : String → Change
  launched : String → Forwarder → Change

wanted_of : DiscordConfig → Option Forwarder
wanted_of d =
    if d.log_setting == "" || d.webhook == ""
    then none
    else some (record { log_setting = d.log_setting; webhook_url = d.webhook })

-- The forwarder that a server's settings ask for.
unfoldable pub wanted : ServerConfig → Option Forwarder
unfolding wanted_of
wanted s = elim s.discord [ none ↦ none | some d ↦ wanted_of d ]

unfoldable pub same_settings : Forwarder → Forwarder → Bool
same_settings a b =
    not (not (a.log_setting == b.log_setting) || not (a.webhook_url == b.webhook_url))

-- The start of a wanted forwarder, after the cancellation of one with other settings.
unfoldable pub sync_one : String → Forwarder → Dict Forwarder → Dict Forwarder × List Change
sync_one name f active = elim (lookup name active) [
  | none ↦ (insert name f active, launched name f ∷ [])
  | some old ↦
      if same_settings old f
      then (active, [])
      else (insert name f (erase name active), cancelled name ∷ launched name f ∷ [])
]

sync_server : String → Option Forwarder → Dict Forwarder → Dict Forwarder × List Change
sync_server name none active = (active, [])
sync_server name (some f) active = sync_one name f active

-- The loop over the configured servers.
unfoldable pub start_forwarders : Dict ServerConfig → Dict Forwarder → Dict Forwarder × List Change
unfolding sync_server
start_forwarders [] active = (active, [])
start_forwarders ((name, server) ∷ servers) active =
    let (active', changes) = sync_server name (wanted server) active in
    let (final, later) = start_forwarders servers active' in (final, changes ++ later)

is_wanted : Option Forwarder → Bool
is_wanted none = false
is_wanted (some _) = true

-- `activeServers`
unfoldable pub active_servers : Dict ServerConfig → List String
unfolding is_wanted
active_servers [] = []
active_servers ((name, server) ∷ servers) =
    let names = active_servers servers in if is_wanted (wanted server) then name ∷ names else names

-- The loop over the active forwarders.
unfoldable pub stop_forwarders : List String → Dict Forwarder → Dict Forwarder × List Change
stop_forwarders names [] = ([], [])
stop_forwarders names ((name, f) ∷ active) =
    let (rest, changes) = stop_forwarders names active in
    if contains name names then ((name, f) ∷ rest, changes) else (rest, cancelled name ∷ changes)

-- `SyncLogForwarders`
unfoldable pub sync_log_forwarders :
    Dict ServerConfig → Dict Forwarder → Dict Forwarder × List Change
sync_log_forwarders servers active =
    let (started, changes) = start_forwarders servers active in
    let (final, later) = stop_forwarders (active_servers servers) started in
    (final, changes ++ later)

-- `runLogForwarderManager`, for the configured servers of the rounds so far: the first round at the
-- start, then one for each tick.
unfoldable pub run_forwarders :
    List (Dict ServerConfig) → Dict Forwarder → Dict Forwarder × List Change
run_forwarders [] active = (active, [])
run_forwarders (servers ∷ ticks) active =
    let (active', changes) = sync_log_forwarders servers active in
    let (final, later) = run_forwarders ticks active' in (final, changes ++ later)
