-- ===== src/Vfs.antt =====
-- internal/vfs/vfs.go: the virtual file system that SFTP and WebDAV share. `MapPath` resolves a
-- virtual path `/<container>/<mount>/…` to a path of the host.
pub mod Confined
pub mod Listing
use play_bin.Base.{
  String, Bool, true, false, Option, none, some, List, [], ◌∷◌, ◌==◌, if◌then◌else◌,
}
use play_bin.Base.Dict.{lookup}
use play_bin.Text.{split, join, trim}
use play_bin.Text.Paths.{slash, clean, rel_path, join_path}
use play_bin.Config.{Config, UserConfig}
use play_bin.Config.Permission.{has_permission, container_read}
use play_bin.World.{
  Mount, Inspect, Error, permission, not_exist, vfs_root, vfs_container_root, Result, ok, err, M,
  pure, call, ◌>>=◌, config_get, container_inspect,
}

-- `strings.Split(strings.Trim(filepath.Clean(path), "/"), "/")`
unfoldable pub path_parts : String → List String
path_parts path = split slash (trim slash (clean path))

-- The loop over the mounts, for the parts after the container's name.
unfoldable pub find_mount : List Mount → String → List String → Result String
find_mount [] target parts = err not_exist
find_mount (m ∷ ms) target parts =
    if trim slash m.destination == target
    then ok (join_path m.source (rel_path target (join "/" parts)))
    else find_mount ms target parts

-- What follows the checks of the container: a mount, or the list of the mounts.
unfoldable pub map_below : String → List String → M (Result String)
map_below name [] = pure (err vfs_container_root)
map_below name (target ∷ rest) = do
  r ← call (container_inspect name)
  elim r [ err _ ↦ pure (err not_exist) | ok i ↦ pure (find_mount i.mounts target (target ∷ rest)) ]

-- The user may read the container, and the container is configured.
unfoldable pub check_container : Config → String → String → Result (Unit {0})
check_container cfg user name = elim (lookup user cfg.users) [
  | none ↦ err permission
  | some u ↦
      if has_permission u name container_read
      then elim (lookup name cfg.servers) [ none ↦ err not_exist | some _ ↦ ok tt ]
      else err permission
]

abbrev pub is_root : String → List String → Bool
is_root name [] = name == ""
is_root name (_ ∷ _) = false

unfoldable pub map_parts : String → List String → M (Result String)
map_parts user [] = pure (err vfs_root)
map_parts user (name ∷ rest) = if is_root name rest then pure (err vfs_root) else do
  cfg ← call config_get
  elim (check_container cfg user name) [ err e ↦ pure (err e) | ok _ ↦ map_below name rest ]

-- `MapPath`
unfoldable pub map_path : String → String → M (Result String)
map_path user path = map_parts user (path_parts path)
