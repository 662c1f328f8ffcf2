-- ===== src/Discord/Forwarders/Laws.antt =====
-- internal/discord/forwarder.go: which forwarders there are after `SyncLogForwarders`.
use play_bin.Base.{
  String, Bool, true, false, ◌||◌, ◌&&◌, Option, none, some, List, [], ◌∷◌, ◌==◌, contains,
  if◌then◌else◌, ◌≡◌, refl, arith, eq_iff, inl, inr, Bool-cases, Option-cases,
}
use play_bin.Base.Dict.{Dict, lookup, insert, erase, lookup-insert, lookup-erase}
use play_bin.Config.{ServerConfig}
use play_bin.Discord.Forwarders.{
  Forwarder, wanted, same_settings, sync_one, sync_server, start_forwarders, is_wanted,
  active_servers, stop_forwarders, sync_log_forwarders,
}

abbrev pub has_key {ℓ} : {V : Type ℓ} → String → Dict V → Bool
has_key k [] = false
has_key k ((j, _) ∷ m) = j == k || has_key k m

-- No key stands twice, as in Go's maps.
abbrev pub NodupKeys {ℓ} : {V : Type ℓ} → Dict V → Type 0
NodupKeys [] = Unit
NodupKeys ((k, _) ∷ m) = (has_key k m ≡ false) × NodupKeys m

pub has_key-insert {ℓ} :
    {V : Type ℓ} (k name : String) (v : V) (m : Dict V)
    → has_key k (insert name v m) ≡ (name == k || has_key k m)
unfolding insert
has_key-insert k name v [] = refl
has_key-insert k name v ((j, g) ∷ m) =
    ground (arith, eq_iff name k, eq_iff j name, eq_iff j k, has_key-insert k name v m)

-- The forwarder that the configuration asks for under a name.
abbrev pub configured : String → Dict ServerConfig → Option Forwarder
configured name servers = elim (lookup name servers) [ none ↦ none | some s ↦ wanted s ]

abbrev or_old : Option Forwarder → Option Forwarder → Option Forwarder
or_old none old = old
or_old (some f) old = some f

same_settings_eq : (a b : Forwarder) → same_settings a b ≡ true → a ≡ b
unfolding same_settings
same_settings_eq a b h =
    ground (arith, eq_iff a.log_setting b.log_setting, eq_iff a.webhook_url b.webhook_url)

pub lookup-missing {ℓ} :
    {V : Type ℓ} (k : String) (m : Dict V) → has_key k m ≡ false → lookup k m ≡ none
unfolding lookup
lookup-missing k [] h = refl
lookup-missing k ((j, v) ∷ m) h = ground (arith, lookup-missing k m)

lookup-sync_one :
    (n name : String) (f : Forwarder) (active : Dict Forwarder)
    → lookup n (sync_one name f active).0 ≡ (if name == n then some f else lookup n active)
unfolding sync_one
lookup-sync_one n name f active = elim (Option-cases (lookup name active)) [
  | inl p ↦ rw (p, sync_one) (lookup-insert name n f active)
  | inr (old, p) ↦ elim (Bool-cases (same_settings old f)) [
    | inl same ↦ let e = same_settings_eq old f same in ground (arith, p, same, e, eq_iff name n)
    | inr other ↦
        ground
          (arith, p, other, lookup-insert name n f (erase name active), lookup-erase name n active)
  ]
]

lookup-sync_server :
    (n name : String) (w : Option Forwarder) (active : Dict Forwarder)
    → lookup n (sync_server name w active).0
      ≡ (if name == n then or_old w (lookup n active) else lookup n active)
unfolding sync_server
lookup-sync_server n name none active = ground arith
lookup-sync_server n name (some f) active = lookup-sync_one n name f active

configured_cons :
    (n name : String) (s : ServerConfig) (servers : Dict ServerConfig)
    → configured n ((name, s) ∷ servers) ≡ (if name == n then wanted s else configured n servers)
unfolding lookup
configured_cons n name s servers = ground arith

-- A name that stands before the rest of the map is missing in it.
configured_missing :
    (n name : String) (servers : Dict ServerConfig)
    → has_key name servers ≡ false
    → name == n ≡ true
    → configured n servers ≡ none
configured_missing n name servers new p =
    let e = eq_iff name n in ground (arith, lookup-missing n servers)

lookup-start_forwarders :
    (n : String) (servers : Dict ServerConfig) (active : Dict Forwarder)
    → NodupKeys servers
    → lookup n (start_forwarders servers active).0 ≡ or_old (configured n servers) (lookup n active)
unfolding start_forwarders lookup
lookup-start_forwarders n [] active u = refl
lookup-start_forwarders n ((name, server) ∷ servers) active (new, nodup) =
    let here = lookup-sync_server n name (wanted server) active in
    let there =
      lookup-start_forwarders n servers (sync_server name (wanted server) active).0 nodup in
    let missing = configured_missing n name servers new in
    elim (Bool-cases (name == n)) [
      | inl p ↦ ground (arith, configured_cons n name server servers)
      | inr p ↦ ground (arith, configured_cons n name server servers)
    ]

contains-if :
    (n name : String) (b : Bool) (names : List String)
    → contains n (if b then name ∷ names else names) ≡ ((b && (n == name)) || contains n names)
contains-if n name true names = refl
contains-if n name false names = refl

contains-active_servers :
    (n : String) (servers : Dict ServerConfig)
    → NodupKeys servers
    → contains n (active_servers servers) ≡ is_wanted (configured n servers)
unfolding active_servers is_wanted lookup
contains-active_servers n [] u = refl
contains-active_servers n ((name, server) ∷ servers) (new, nodup) =
    let there = contains-active_servers n servers nodup in
    let missing = configured_missing n name servers new in
    let names = active_servers servers in
    rw (contains-if n name (is_wanted (wanted server)) names, configured_cons n name server servers)
      (ground (arith, eq_iff name n, eq_iff n name))

pub lookup-stop_forwarders :
    (n : String) (names : List String) (active : Dict Forwarder)
    → lookup n (stop_forwarders names active).0
      ≡ (if contains n names then lookup n active else none)
unfolding stop_forwarders lookup
lookup-stop_forwarders n names [] = ground arith
lookup-stop_forwarders n names ((name, f) ∷ active) =
    let there = lookup-stop_forwarders n names active in ground (arith, eq_iff name n)

-- After a synchronisation the forwarder of every name is the one that the configuration asks for,
-- whatever ran before, when no server name stands twice in the configuration.
pub sync_log_forwarders_lem :
    (n : String) (servers : Dict ServerConfig) (active : Dict Forwarder)
    → NodupKeys servers
    → lookup n (sync_log_forwarders servers active).0 ≡ configured n servers
unfolding sync_log_forwarders is_wanted
sync_log_forwarders_lem n servers active nodup =
    let started = start_forwarders servers active in
    ground (
      arith,
      lookup-stop_forwarders n (active_servers servers) started.0,
      contains-active_servers n servers nodup,
      lookup-start_forwarders n servers active nodup,
    )
