-- ===== src/Discord/Forwarders/Live.antt =====
-- internal/discord/forwarder.go and service.go: the goroutines of the forwarders, as the changes of
-- `SyncLogForwarders` start and cancel them.
pub mod Rounds
use play_bin.Base.{
  String, Bool, true, false, ◌||◌, ◌&&◌, not, Option, none, some, List, [], ◌∷◌, ◌++◌, ◌==◌,
  contains, if◌then◌else◌, ◌≡◌, ◌≢◌, eq_refl, refl, sym, ap, ◌∙◌, arith, eq_iff, inl, inr,
  Bool-cases, Option-cases,
}
use play_bin.Base.Dict.{Dict, lookup, insert, erase, lookup-insert, lookup-erase}
use play_bin.Config.{ServerConfig}
use play_bin.Discord.Forwarders.{
  Forwarder, Change, cancelled, launched, wanted, same_settings, sync_one, sync_server,
  start_forwarders, active_servers, stop_forwarders, sync_log_forwarders, run_forwarders,
}
use play_bin.Discord.Forwarders.Laws.{
  has_key-insert, has_key, NodupKeys, lookup-missing, lookup-stop_forwarders, configured,
  sync_log_forwarders_lem,
}

-- For each server name, the forwarder whose goroutine is not cancelled.
abbrev pub Live : Type 0
Live = String → Option Forwarder

abbrev pub set : String → Option Forwarder → Live → Live
set name f live n = if name == n then f else live n

-- What the changes make of it, the first one first.
abbrev pub replay : List Change → Live → Live
replay [] live = live
replay (cancelled name ∷ cs) live = replay cs (set name none live)
replay (launched name f ∷ cs) live = replay cs (set name (some f) live)

-- Only a live forwarder is cancelled, and one is launched only where none is live.
abbrev pub Fits : List Change → Live → Type 0
Fits [] live = Unit
Fits (cancelled name ∷ cs) live = (live name ≢ none) × Fits cs (set name none live)
Fits (launched name f ∷ cs) live = (live name ≡ none) × Fits cs (set name (some f) live)

pub replay-append :
    (cs ds : List Change) (live : Live) → replay (cs ++ ds) live ≡ replay ds (replay cs live)
replay-append [] ds live = refl
replay-append (cancelled name ∷ cs) ds live = replay-append cs ds (set name none live)
replay-append (launched name f ∷ cs) ds live = replay-append cs ds (set name (some f) live)

Fits-append :
    (cs ds : List Change) (live : Live)
    → Fits cs live
    → Fits ds (replay cs live)
    → Fits (cs ++ ds) live
Fits-append [] ds live fit later = later
Fits-append (cancelled name ∷ cs) ds live (here, fit) later =
    (here, Fits-append cs ds (set name none live) fit later)
Fits-append (launched name f ∷ cs) ds live (here, fit) later =
    (here, Fits-append cs ds (set name (some f) live) fit later)

-- The live forwarders are those of the map, in which no name stands twice.
pub record Tracks (live : Live) (active : Dict Forwarder) : Type 0 where
  pub agrees : (n : String) → live n ≡ lookup n active
  pub nodup : NodupKeys active

-- The changes fit, and lead from the one map to the other.
pub record Leads (live : Live) (changes : List Change) (final : Dict Forwarder) : Type 0 where
  pub fits : Fits changes live
  pub tracks : Tracks (replay changes live) final

NodupKeys-insert :
    (name : String) (f : Forwarder) (m : Dict Forwarder) → NodupKeys m → NodupKeys (insert name f m)
unfolding insert
NodupKeys-insert name f [] u = (refl, tt)
NodupKeys-insert name f ((j, g) ∷ m) (new, u) = ground (
  arith,
  new,
  u,
  eq_iff name j,
  eq_iff j name,
  has_key-insert j name f m,
  NodupKeys-insert name f m u,
)

has_key-erase :
    (k name : String) (m : Dict Forwarder) → has_key k m ≡ false → has_key k (erase name m) ≡ false
unfolding erase
has_key-erase k name [] missing = refl
has_key-erase k name ((j, g) ∷ m) missing = ground (arith, missing, has_key-erase k name m)

NodupKeys-erase : (name : String) (m : Dict Forwarder) → NodupKeys m → NodupKeys (erase name m)
unfolding erase
NodupKeys-erase name [] u = tt
NodupKeys-erase name ((j, g) ∷ m) (new, u) =
    ground (arith, new, u, has_key-erase j name m new, NodupKeys-erase name m u)

Tracks-insert :
    (name : String) (f : Forwarder) (live : Live) (m : Dict Forwarder)
    → Tracks live m
    → Tracks (set name (some f) live) (insert name f m)
Tracks-insert name f live m t = record {
  agrees = λ n. ground (arith, lookup-insert name n f m, t.agrees n);
  nodup = NodupKeys-insert name f m t.nodup;
}

Tracks-erase :
    (name : String) (live : Live) (m : Dict Forwarder)
    → Tracks live m
    → Tracks (set name none live) (erase name m)
Tracks-erase name live m t = record {
  agrees = λ n. ground (arith, lookup-erase name n m, t.agrees n);
  nodup = NodupKeys-erase name m t.nodup;
}

pub present : (live : Live) (name : String) (f : Forwarder) → live name ≡ some f → live name ≢ none
present live name f found absent = ground (arith, found, absent)

set-same : (name : String) (live : Live) → set name none live name ≡ none
set-same name live = rw (eq_refl name) refl

pub sync_one-Leads :
    (name : String) (f : Forwarder) (live : Live) (active : Dict Forwarder)
    → Tracks live active
    → Leads live (sync_one name f active).1 (sync_one name f active).0
unfolding sync_one
sync_one-Leads name f live active t = elim (Option-cases (lookup name active)) [
  | inl absent ↦
      rw (absent, sync_one)
        (record {
          fits = (t.agrees name ∙ absent, tt);
          tracks = Tracks-insert name f live active t;
        })
  | inr (old, found) ↦ elim (Bool-cases (same_settings old f)) [
    | inl same ↦ rw (found, same, sync_one) (record { fits = tt; tracks = t })
    | inr differ ↦
        let t' = Tracks-erase name live active t in
        rw (found, differ, sync_one)
          (record {
            fits = (present live name old (t.agrees name ∙ found), (set-same name live, tt));
            tracks = Tracks-insert name f (set name none live) (erase name active) t';
          })
  ]
]

pub Leads-append :
    (live : Live) (cs ds : List Change) (mid final : Dict Forwarder)
    → Leads live cs mid
    → Leads (replay cs live) ds final
    → Leads live (cs ++ ds) final
Leads-append live cs ds mid final first later = record {
  fits = Fits-append cs ds live first.fits later.fits;
  tracks = rw (replay-append cs ds live) later.tracks;
}
