-- ===== src/Discord/Forwarders/Live/Rounds.antt =====
-- internal/discord/forwarder.go and service.go: the live goroutines over the rounds of the manager.
use play_bin.Base.{
  String, true, false, ◌&&◌, not, Option, none, some, List, [], ◌∷◌, ◌++◌, contains, if◌then◌else◌,
  ◌≡◌, eq_refl, refl, ap, ◌∙◌, arith, eq_iff, inl, inr, Bool-cases,
}
use play_bin.Base.Dict.{Dict, lookup}
use play_bin.Config.{ServerConfig}
use play_bin.Discord.Forwarders.{
  Forwarder, wanted, sync_server, start_forwarders, active_servers, stop_forwarders,
  sync_log_forwarders, run_forwarders,
}
use play_bin.Discord.Forwarders.Laws.{
  has_key, NodupKeys, lookup-missing, lookup-stop_forwarders, configured, sync_log_forwarders_lem,
}
use play_bin.Discord.Forwarders.Live.{
  Live, set, replay, Fits, Tracks, Leads, Leads-append, sync_one-Leads, present,
}

sync_server-Leads :
    (name : String) (w : Option Forwarder) (live : Live) (active : Dict Forwarder)
    → Tracks live active
    → Leads live (sync_server name w active).1 (sync_server name w active).0
unfolding sync_server
sync_server-Leads name none live active t = record { fits = tt; tracks = t }
sync_server-Leads name (some f) live active t = sync_one-Leads name f live active t

start_forwarders-Leads :
    (servers : Dict ServerConfig) (live : Live) (active : Dict Forwarder)
    → Tracks live active
    → Leads live (start_forwarders servers active).1 (start_forwarders servers active).0
unfolding start_forwarders
start_forwarders-Leads [] live active t = record { fits = tt; tracks = t }
start_forwarders-Leads ((name, server) ∷ servers) live active t =
    let one = sync_server name (wanted server) active in
    let first = sync_server-Leads name (wanted server) live active t in
    let later = start_forwarders-Leads servers (replay one.1 live) one.0 first.tracks in
    Leads-append live one.1 (start_forwarders servers one.0).1 one.0
      (start_forwarders servers one.0).0 first later

-- The live forwarders are those of the map, for the keys of the map.
abbrev Covers : Live → Dict Forwarder → Type 0
Covers live active = (n : String) → has_key n active ≡ true → live n ≡ lookup n active

Covers-tail :
    (name : String) (f : Forwarder) (live : Live) (active : Dict Forwarder)
    → has_key name active ≡ false
    → Covers live ((name, f) ∷ active)
    → Covers live active
unfolding lookup
Covers-tail name f live active new covers n there =
    let c = covers n in ground (arith, eq_iff name n)

Covers-set :
    (name : String) (f : Forwarder) (live : Live) (active : Dict Forwarder)
    → has_key name active ≡ false
    → Covers live ((name, f) ∷ active)
    → Covers (set name none live) active
Covers-set name f live active new covers n there =
    let tail = Covers-tail name f live active new covers n there in
    ground (arith, new, there, eq_iff name n)

stop_forwarders-Fits :
    (names : List String) (live : Live) (active : Dict Forwarder)
    → NodupKeys active
    → Covers live active
    → Fits (stop_forwarders names active).1 live
unfolding stop_forwarders lookup
stop_forwarders-Fits names live [] u covers = tt
stop_forwarders-Fits names live ((name, f) ∷ active) (new, u) covers =
    elim (Bool-cases (contains name names)) [
      | inl kept ↦
          rw kept
            (stop_forwarders-Fits names live active u (Covers-tail name f live active new covers))
      | inr gone ↦ rw gone (
        present live name f (covers name (rw (eq_refl name) refl) ∙ rw (eq_refl name) refl),
        stop_forwarders-Fits names (set name none live) active u
            (λ n there. Covers-set name f live active new covers n there),
      )
    ]

replay-stop_forwarders :
    (n : String) (names : List String) (live : Live) (active : Dict Forwarder)
    → NodupKeys active
    → replay (stop_forwarders names active).1 live n
      ≡ (if has_key n active && not (contains n names) then none else live n)
unfolding stop_forwarders
replay-stop_forwarders n names live [] u = refl
replay-stop_forwarders n names live ((name, f) ∷ active) (new, u) =
    let there = replay-stop_forwarders n names live active u in
    let there' = replay-stop_forwarders n names (set name none live) active u in
    elim (Bool-cases (contains name names)) [
      | inl kept ↦ rw kept (there ∙ ground (arith, new, kept, eq_iff name n))
      | inr gone ↦ rw gone (there' ∙ ground (arith, new, gone, eq_iff name n))
    ]

has_key-stop_forwarders :
    (k : String) (names : List String) (active : Dict Forwarder)
    → has_key k active ≡ false
    → has_key k (stop_forwarders names active).0 ≡ false
unfolding stop_forwarders
has_key-stop_forwarders k names [] missing = refl
has_key-stop_forwarders k names ((name, f) ∷ active) missing =
    ground (arith, missing, has_key-stop_forwarders k names active)

NodupKeys-stop_forwarders :
    (names : List String) (active : Dict Forwarder)
    → NodupKeys active
    → NodupKeys (stop_forwarders names active).0
unfolding stop_forwarders
NodupKeys-stop_forwarders names [] u = tt
NodupKeys-stop_forwarders names ((name, f) ∷ active) (new, u) = ground (
  arith,
  new,
  u,
  has_key-stop_forwarders name names active new,
  NodupKeys-stop_forwarders names active u,
)

stop_forwarders-Leads :
    (names : List String) (live : Live) (active : Dict Forwarder)
    → Tracks live active
    → Leads live (stop_forwarders names active).1 (stop_forwarders names active).0
stop_forwarders-Leads names live active t = record {
  fits = stop_forwarders-Fits names live active t.nodup (λ n there. t.agrees n);
  tracks = record {
    agrees = λ n. ground (
      arith,
      replay-stop_forwarders n names live active t.nodup,
      lookup-stop_forwarders n names active,
      t.agrees n,
      lookup-missing n active,
    );
    nodup = NodupKeys-stop_forwarders names active t.nodup;
  };
}

sync_log_forwarders-Leads :
    (servers : Dict ServerConfig) (live : Live) (active : Dict Forwarder)
    → Tracks live active
    → Leads live (sync_log_forwarders servers active).1 (sync_log_forwarders servers active).0
unfolding sync_log_forwarders
sync_log_forwarders-Leads servers live active t =
    let started = start_forwarders servers active in
    let names = active_servers servers in
    let first = start_forwarders-Leads servers live active t in
    let later = stop_forwarders-Leads names (replay started.1 live) started.0 first.tracks in
    Leads-append live started.1 (stop_forwarders names started.0).1 started.0
      (stop_forwarders names started.0).0 first later

run_from-Leads :
    (ticks : List (Dict ServerConfig)) (live : Live) (active : Dict Forwarder)
    → Tracks live active
    → Leads live (run_forwarders ticks active).1 (run_forwarders ticks active).0
unfolding run_forwarders
run_from-Leads [] live active t = record { fits = tt; tracks = t }
run_from-Leads (servers ∷ ticks) live active t =
    let one = sync_log_forwarders servers active in
    let first = sync_log_forwarders-Leads servers live active t in
    let later = run_from-Leads ticks (replay one.1 live) one.0 first.tracks in
    Leads-append live one.1 (run_forwarders ticks one.0).1 one.0 (run_forwarders ticks one.0).0
      first later

run_from-last :
    (ticks : List (Dict ServerConfig)) (servers : Dict ServerConfig) (active : Dict Forwarder)
    → (run_forwarders (ticks ++ servers ∷ []) active).0
      ≡ (sync_log_forwarders servers (run_forwarders ticks active).0).0
unfolding run_forwarders
run_from-last [] servers active = refl
run_from-last (first ∷ ticks) servers active =
    run_from-last ticks servers (sync_log_forwarders first active).0

-- No goroutine runs when the manager starts.
abbrev pub none_live : Live
none_live n = none

-- Over the rounds of the manager from its start, with any configured servers in each round, a
-- goroutine is cancelled only while it is live, and one is launched under a name only while none is
-- live there, so for a server there is never more than one that was not cancelled; after the last round, the live goroutine of every
-- name is the one that the last configuration asks for, with its settings, or none where it asks for
-- none, when no server name stands twice in that configuration.
pub run_forwarders-configured :
    (n : String) (ticks : List (Dict ServerConfig)) (servers : Dict ServerConfig)
    → NodupKeys servers
    → Fits (run_forwarders (ticks ++ servers ∷ []) []).1 none_live
      × (replay (run_forwarders (ticks ++ servers ∷ []) []).1 none_live n ≡ configured n servers)
unfolding lookup
run_forwarders-configured n ticks servers nodup =
    let rounds = ticks ++ servers ∷ [] in
    let from : Tracks none_live [] = record { agrees = λ m. refl; nodup = tt } in
    let all = run_from-Leads rounds none_live [] from in
    let before = (run_forwarders ticks []).0 in
    (
      all.fits,
      all.tracks.agrees n
          ∙ ap (λ m. lookup n m) (run_from-last ticks servers [])
          ∙ sync_log_forwarders_lem n servers before nodup,
    )
