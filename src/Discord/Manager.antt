-- ===== src/Discord/Manager.antt =====
-- internal/discord/service.go: the manager and its loops over the ticks of a clock.
use play_bin.Base.{ℕ, String, List, [], ◌∷◌, ◌≡◌, refl, ap, ◌∙◌, All}
use play_bin.Base.Dict.{Dict}
use play_bin.Config.{Config}
use play_bin.Discord.Bots.{Connection, Bots, sync_bots}
use play_bin.Discord.Bots.Laws.{sync_bots_twice}
use play_bin.Discord.Forwarders.{Forwarder}

-- `NewBotManager`: the state of the bots, and the map of the forwarders; the time 0 is Go's zero time.
abbrev pub new_bots : Bots
new_bots = record { sessions = []; channel_to_server = []; updated_at = 0 }

abbrev pub new_forwarders : Dict Forwarder
new_forwarders = []

-- What a round of `runBotManager` meets: the configuration, its time of loading, and what the Discord
-- library answers.
pub record Tick : Type 0 where
  pub config : Config
  pub loaded : ℕ
  pub connect : String → Connection

-- `runBotManager`, for the rounds so far: the first one at the start, then one for each tick.
unfoldable pub run_bots : List Tick → Bots → Bots
run_bots [] bots = bots
run_bots (t ∷ ticks) bots = run_bots ticks (sync_bots t.connect t.config t.loaded bots)

-- As long as the configuration is not loaded again, the rounds after the first change nothing,
-- whatever the Discord library would answer.
pub run_bots-idle :
    (first : Tick) (ticks : List Tick) (bots : Bots)
    → All (λ t. (t.config ≡ first.config) × (t.loaded ≡ first.loaded)) ticks
    → run_bots (first ∷ ticks) bots ≡ sync_bots first.connect first.config first.loaded bots
unfolding run_bots
run_bots-idle first [] bots same = refl
run_bots-idle first (t ∷ ticks) bots ((config, loaded), same) =
    let known = sync_bots first.connect first.config first.loaded bots in
    let step : sync_bots t.connect t.config t.loaded known ≡ known =
      ap (λ c. sync_bots t.connect c t.loaded known) config
      ∙ ap (λ n. sync_bots t.connect first.config n known) loaded
      ∙ sync_bots_twice first.connect t.connect first.config first.loaded bots in
    ap (run_bots ticks) step ∙ run_bots-idle first ticks bots same
