-- ===== src/Container/RoundTrip.antt =====
-- internal/container/container.go: a backup and its restore, on the directories that they copy.
--
-- A store gives the content of each directory, whose name ends in a slash. What rsync makes of the
-- target depends on its options, and is a parameter; `IsMirror` is what its documentation says of
-- the options that the program passes. Nothing but the target changes, as directories that lie in
-- each other are excluded by `Separate`.
pub mod Moves
pub mod Saved
pub mod Loaded
use play_bin.Base.{
  String, Bool, true, false, not, ◌||◌, Option, none, some, List, [], ◌∷◌, ◌++◌, ◌==◌, ◌<>◌,
  if◌then◌else◌, ◌≡◌, ◌≢◌, refl, sym, ap, ◌∙◌, arith, All, inl, inr, Bool-cases, Option-cases,
  eq_iff,
}
use play_bin.Base.Dict.{lookup}
use play_bin.Text.Paths.{join_path}
use play_bin.Config.{CmdConfig, ServerConfig}
use play_bin.World.{
  Event, Trace, Env, pure, Error, Result, ok, err, Outcome, rsync, stat, config_get, local_time,
  make_dir_all, container_inspect,
}
use play_bin.World.Laws.{Result-cases}
use play_bin.Docker.{send_command}
use play_bin.Container.Lifecycle.{pause}
use play_bin.Container.Archive.{
  failed, is_running, backup_paths, backup_args, copy_step, backup_step, backup_steps, backup,
  restore_step, restore_steps, restore,
}
use play_bin.Container.RoundTrip.Moves.{Store, put, moves, Separate, moves-All}

-- The documentation of rsync, for contents of which those that differ have a file that differs in its
-- size or its time, which is all that rsync compares: with `-a` and `--delete` the target becomes
-- what the source is, also with `--link-dest`, which only saves space.
pub record IsMirror {ℓ} {D : Type ℓ} (effect : List String → D → D → D) : Type ℓ where
  pub plain : (from to : D) → effect ("-avh" ∷ "--delete" ∷ []) from to ≡ from
  pub linked :
      (dir : String) (from to : D)
      → effect ("-avh" ∷ "--delete" ∷ "--link-dest" ∷ dir ∷ []) from to ≡ from

-- `effect` tells what rsync makes of the target, from its options, the source's content and the
-- target's.
module _ {ℓ} {D : Type ℓ} (effect : List String → D → D → D) where
  -- What the arguments of rsync do to the store: the options, the source and the target.
  abbrev pub copied_with : List String → List String → Store D → Store D
  copied_with options [] s = s
  copied_with options (x ∷ []) s = s
  copied_with options (from ∷ to ∷ []) s =
      put (to <> "/") (effect options (s from) (s (to <> "/"))) s
  copied_with options (x ∷ y ∷ z ∷ args) s = copied_with (options ++ x ∷ []) (y ∷ z ∷ args) s

  abbrev pub copied : List String → Store D → Store D
  copied args s = copied_with [] args s

  -- The store after the copies of a trace that succeeded.
  abbrev pub after : Store D → Trace → Store D
  after s [] = s
  after s ((rsync args, ok _) ∷ h) = copied args (after s h)
  after s (e ∷ h) = after s h

-- The pairs of directories that the configured steps name.
abbrev pub pair_of : CmdConfig → Option (String × String)
pair_of cmd = if cmd.kind == "backup" then backup_paths cmd.arg else none

abbrev pub with_pair {ℓ} : {A : Type ℓ} → Option A → List A → List A
with_pair none ps = ps
with_pair (some p) ps = p ∷ ps

abbrev pub pairs : List CmdConfig → List (String × String)
pairs [] = []
pairs (cmd ∷ cmds) = with_pair (pair_of cmd) (pairs cmds)

-- From the data to its generation, and back.
abbrev pub saves : String → List (String × String) → List (String × String)
saves generation [] = []
saves generation ((src, dest) ∷ ps) =
    (src <> "/", (dest <> "/" <> generation) <> "/") ∷ saves generation ps

abbrev pub loads : String → List (String × String) → List (String × String)
loads generation [] = []
loads generation ((src, dest) ∷ ps) =
    (join_path dest generation <> "/", src <> "/") ∷ loads generation ps
