-- ===== src/Container/Engine.antt =====
-- What the documentation of the Docker engine promises about one container, and what the actions of
-- internal/container/container.go should do with it: the abstract life cycle of a container, with
-- three states and no engine calls.
pub mod Quiet
pub mod Refines
use play_bin.Base.{
  ℕ, String, Bool, true, false, not, ◌||◌, ◌&&◌, ◌==◌, Option, none, some, [], ◌∷◌, if◌then◌else◌,
  ◌≡◌, ◌≢◌, ◌⊎◌,
}
use play_bin.Base.Dict.{lookup}
use play_bin.Config.{ServerConfig, Config}
use play_bin.World.{
  Inspect, Error, is_not_found, ContainerConfig, HostConfig, not_found, Result, ok, err, Event,
  Trace, Env, container_inspect, container_create, container_start, container_stop, container_kill,
  container_remove,
}
use play_bin.Container.{
  Action, start_action, stop_action, kill_action, backup_action, restore_action, remove_action,
  unknown_action,
}

pub data Status : Type 0 where
  absent stopped running : Status

-- What the engine was told last of the named container, after a call that it answered. The container
-- may exit in between, and its restart policy may start it again.
abbrev pub changed : String → Event → Status → Status
changed name (container_create n _ _, ok _) s = if n == name then stopped else s
changed name (container_start n, ok _) s = if n == name then running else s
changed name (container_stop n _, ok _) s = if n == name then stopped else s
changed name (container_kill n _, ok _) s = if n == name then stopped else s
changed name (container_remove n, ok _) s = if n == name then absent else s
changed name _ s = s

abbrev pub status : String → Status → Trace → Status
status name initial [] = initial
status name initial (e ∷ h) = changed name e (status name initial h)

-- An inspection finds a container if there is one, running or not, and none if there is none; or it
-- fails for another reason.
abbrev pub Shows : Status → Result Inspect → Type 0
Shows absent r = (e : Error) × (r ≡ err e)
Shows _ (ok i) = Unit
Shows _ (err e) = is_not_found e ≡ false

abbrev pub Fails : Result (Unit {0}) → Type 0
Fails (ok _) = ⊥
Fails (err _) = Unit

-- The engine, used by no other client: what it finds and what it refuses in each state.
pub record IsEngine (name : String) (initial : Status) (env : Env) : Type 0 where
  pub shows : (h : Trace) → Shows (status name initial h) (env h (container_inspect name))
  pub stop_absent :
      (h : Trace)
      → status name initial h ≡ absent
      → (t : Option ℕ) → Fails (env h (container_stop name t))
  pub kill_absent :
      (h : Trace)
      → status name initial h ≡ absent
      → (signal : String) → Fails (env h (container_kill name signal))

-- Whether the configuration names an image for the server.
abbrev pub has_image : Option ServerConfig → Bool
has_image none = false
has_image (some s) = elim s.compose [ none ↦ false | some c ↦ not (c.image == "") ]

abbrev pub same : Status → Status → Bool
same absent absent = true
same stopped stopped = true
same running running = true
same _ _ = false

-- The abstract life cycle: whether an action that fails, or does not, may lead from one state to
-- another. `startable` tells that the configuration names an image.
abbrev pub allowed : Action → Bool → Status → Bool → Status → Bool
allowed start_action false s fails t = not fails && same s t
allowed start_action true absent false t = same t running
allowed start_action true absent true t = not (same t running)
allowed start_action true s fails t = fails && same s t
allowed stop_action startable s true t = same s t
allowed stop_action startable s false t = not (same s absent) && same t stopped
allowed kill_action startable s true t = same s t
allowed kill_action startable s false t = not (same s absent) && same t stopped
allowed remove_action startable s false t = same t absent
allowed remove_action startable s true t = same s t
allowed backup_action startable s fails t = same s t
allowed restore_action startable s fails t = fails && same s t
allowed (unknown_action _) startable s fails t = fails && same s t
