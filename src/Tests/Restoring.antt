-- ===== src/Tests/Restoring.antt =====
-- internal/container/container.go: a backup of two directories, and its restore.
use play_bin.Base.{
  String, none, Bool, false, not, ◌||◌, List, [], ◌∷◌, ◌==◌, ◌<>◌, if◌then◌else◌, ◌≡◌, refl, All,
}
use play_bin.Base.Dict.{lookup}
use play_bin.Config.{CmdConfig, ServerConfig, no_server}
use play_bin.World.{Env, config_get}
use play_bin.Text.{split_once, strip_prefix}
use play_bin.Text.Paths.{join_path, clean, render, clean_parts}
use play_bin.Container.Archive.{
  backup, backup_step, backup_steps, copy_step, restore, restore_step, restore_steps,
}
use play_bin.Container.RoundTrip.{IsMirror, after}
use play_bin.Container.RoundTrip.Moves.{Store}
use play_bin.Container.RoundTrip.Loaded.{restore-backup}
use play_bin.Tests.Sample.{sample, sample_config}

abbrev steps : List CmdConfig
steps =
    record { kind = "backup"; arg = "/srv/mc:/backup/mc" }
    ∷ record { kind = "attach"; arg = "save-on" }
    ∷ record { kind = "backup"; arg = "/srv/world:/backup/world" }
    ∷ []

abbrev server : ServerConfig
server = record no_server { commands = record { stop = none; backup = steps; message = none } }

abbrev host : Env
host h config_get = record sample_config { servers = ("mc", server) ∷ [] }
host h c = sample h c

-- The options, without what `--link-dest` is followed by.
abbrev has : String → List String → Bool
has o [] = false
has o (x ∷ []) = x == o
has o (x ∷ y ∷ xs) =
    let next = has o (y ∷ xs) in
    let behind = has o xs in if x == "--link-dest" then behind else x == o || next

-- A directory of which the content is the text of all its files: without `--delete` what was there
-- stays, and a dry run changes nothing.
abbrev effect : List String → String → String → String
effect options from to =
    if has "--dry-run" options || not (has "-avh" options)
    then to
    else if has "--delete" options
    then from
    else to <> from

effect-IsMirror : IsMirror effect
effect-IsMirror = record { plain = λ from to. refl; linked = λ dir from to. refl }

abbrev stamp : String
stamp = "20240102-030405"

abbrev played : Store String
played p = if p == "/srv/mc/" then "mc" else if p == "/srv/world/" then "world" else ""

-- Later all data are changed; the copies are as the backup left them.
abbrev damaged : Store String
damaged p =
    if p == "/backup/mc/20240102-030405/"
    then "mc"
    else if p == "/backup/world/20240102-030405/"
    then "world"
    else "damaged"

restoring_tests :
    (after effect damaged (restore "mc" stamp host []).1 "/srv/mc/" ≡ "mc")
    × (after effect damaged (restore "mc" stamp host []).1 "/srv/world/" ≡ "world")
unfolding restore restore_step restore_steps lookup split_once join_path clean render clean_parts
restoring_tests = (refl, refl)

restore-backup_example :
    All
      (λ (p : String × String).
        after effect damaged (restore "mc" stamp host []).1 (p.0 <> "/") ≡ played (p.0 <> "/"))
      (("/srv/mc", "/backup/mc") ∷ ("/srv/world", "/backup/world") ∷ [])
unfolding backup backup_step backup_steps copy_step restore restore_step restore_steps lookup
    split_once join_path clean render clean_parts strip_prefix
restore-backup_example =
    restore-backup effect "mc" stamp host host played damaged server effect-IsMirror refl refl refl
      (refl, (refl, tt))
      ((refl, refl), ((refl, refl), tt), ((refl, refl), tt), ((refl, refl), tt, tt, tt))
      ((refl, refl), ((refl, refl), tt), ((refl, refl), tt), ((refl, refl), tt, tt, tt))
      (λ t p. refl) refl refl (refl, (refl, tt))
