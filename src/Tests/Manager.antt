-- ===== src/Tests/Manager.antt =====
-- internal/container, internal/config and internal/discord: concrete runs and instances.
use play_bin.Base.{String, some, List, [], ◌≡◌, refl, inl, if◌then◌else◌}
use native.Mathlib.Omega.{arith}
use play_bin.Base.Dict.{lookup}
use play_bin.Config.Loaded.{start, sound_file, get, get_fresh}
use play_bin.World.{ok, err}
use play_bin.Container.{kill_action, execute_action}
use play_bin.Container.Archive.{failed, backup, restore, backup_failed}
use play_bin.Container.Protocol.{IsOrderly}
use play_bin.Container.Protocol.Manager.{execute_action-IsOrderly}
use play_bin.Container.Completion.{any_failed, backup_complete, restore_complete}
use play_bin.Container.Generations.{list_generations}
use play_bin.Container.Generations.Laws.{IsDescending, any_shows, list_generations_lem}
use play_bin.Discord.Forwarders.{wanted}
use play_bin.Discord.Forwarders.Laws.{configured}
use play_bin.Tests.Sample.{sample, sample_config, minecraft}
use play_bin.Base.{contains}

opened : Unit {0}
unfolding lookup
opened = tt

execute_action-IsOrderly_example : IsOrderly (execute_action "mc" kill_action sample []).1
execute_action-IsOrderly_example = execute_action-IsOrderly "mc" kill_action sample [] tt

restore_complete_example :
    failed (restore "mc" "20240101-000000" sample []).0
    ≡ any_failed (restore "mc" "20240101-000000" sample []).1
unfolding opened
restore_complete_example = restore_complete "mc" "20240101-000000" sample [] refl refl

backup_complete_example :
    (backup "mc" sample []).0
    ≡ (if any_failed (backup "mc" sample []).1 then err backup_failed else ok tt)
unfolding opened
backup_complete_example = backup_complete "mc" sample [] minecraft refl refl

list_generations_lem_example :
    (gs : List String) × ((list_generations "mc" sample []).0 ≡ ok gs)
    × IsDescending gs
    × (contains "latest" gs ≡ any_shows "latest" (list_generations "mc" sample []).1)
unfolding opened
list_generations_lem_example = list_generations_lem "mc" "latest" sample minecraft refl

get_fresh_example :
    get (some 7) (sound_file 7 sample_config) start
    ≡ (record { config = sample_config; last_loaded = 7 }, sample_config)
get_fresh_example = get_fresh (λ _. sample_config) 7 start (inl refl) (omega arith) (omega arith)

-- The forwarder of the sample's server.
forwarder_tests :
    (configured "mc" sample_config.servers
      ≡ some (record { log_setting = "log.json"; webhook_url = "https://hook" }))
unfolding opened wanted
forwarder_tests = refl
