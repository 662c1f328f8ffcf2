-- ===== src/Container/Generations.antt =====
-- internal/container/container.go: `ListBackupGenerations`.
pub mod Laws
pub mod Kept
use Prim.Native.String
use play_bin.Base.{
  code, String, Bool, true, false, not, ◌&&◌, ◌||◌, Option, none, some, List, [], ◌∷◌, ◌++◌, ◌==◌,
  eqb, ltb, contains, if◌then◌else◌, ◌<>◌,
}
use play_bin.Base.Dict.{lookup}
use play_bin.Config.{CmdConfig}
use play_bin.World.{DirEntry, fault, Result, ok, err, M, pure, call, ◌>>=◌, config_get, read_dir}
use play_bin.Container.Archive.{backup_paths}

-- Go's `<` on strings.
unfoldable pub str_lt : String → String → Bool
str_lt String.[] String.[] = false
str_lt String.[] (String.◌∷◌ d t) = true
str_lt (String.◌∷◌ c s) String.[] = false
str_lt (String.◌∷◌ c s) (String.◌∷◌ d t) =
    let rest = str_lt s t in
    if ltb (code c) (code d) then true else if eqb (code c) (code d) then rest else false

unfoldable pub insert_desc : String → List String → List String
insert_desc x [] = x ∷ []
insert_desc x (y ∷ ys) = let rest = insert_desc x ys in if str_lt x y then y ∷ rest else x ∷ y ∷ ys

-- `sort.Sort(sort.Reverse(sort.StringSlice(generations)))`: equal texts cannot be told apart, so
-- one sorting algorithm stands for any other.
unfoldable pub sort_desc : List String → List String
unfolding insert_desc str_lt
sort_desc [] = []
sort_desc (x ∷ xs) = insert_desc x (sort_desc xs)

-- The loop over the entries of one directory. A name is in `seen` exactly when it was appended to
-- `generations`, so one list stands for both.
unfoldable pub add_entries : List DirEntry → List String → List String
add_entries [] generations = generations
add_entries (entry ∷ entries) generations = add_entries entries (
    if entry.name == "latest" || not entry.is_dir || contains entry.name generations
    then generations
    else generations ++ (entry.name ∷ []))

-- The loop over the backup commands.
unfoldable pub collect : List CmdConfig → List String → M (List String)
collect [] generations = pure generations
collect (cmd ∷ cmds) generations =
    if cmd.kind == "backup"
    then elim (backup_paths cmd.arg) [
      | none ↦ collect cmds generations
      | some (src, dest_base) ↦ do
        entries ← call (read_dir dest_base)
        elim entries [
          | err _ ↦ collect cmds generations
          | ok es ↦ collect cmds (add_entries es generations)
        ]
    ]
    else collect cmds generations

-- `ListBackupGenerations`
unfoldable pub list_generations : String → M (Result (List String))
list_generations name = do
  cfg ← call config_get
  elim (lookup name cfg.servers) [
    | none ↦ pure (err (fault ("server " <> name <> " not found in config")))
    | some server ↦ do
      generations ← collect server.commands.backup []
      pure (ok (sort_desc generations))
  ]
