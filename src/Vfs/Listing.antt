-- ===== src/Vfs/Listing.antt =====
-- The virtual directories, which internal/sftp/server.go and internal/webdav/server.go both list.
use play_bin.Base.{String, true, List, [], ◌∷◌, if◌then◌else◌}
use play_bin.Base.Dict.{Dict, get_or}
use play_bin.Text.{trim}
use play_bin.Text.Paths.{slash}
use play_bin.Config.{UserConfig, ServerConfig, no_user}
use play_bin.Config.Permission.{has_permission, container_read}
use play_bin.World.{Mount, DirEntry, ok, err, M, pure, call, ◌>>=◌, config_get, container_inspect}
use play_bin.World.{FileInfo}

-- A directory of that name.
abbrev pub directory : String → FileInfo
directory name = record { name = name; is_dir = true }

-- The configured servers that the user may read.
unfoldable pub readable_servers : UserConfig → Dict ServerConfig → List FileInfo
readable_servers u [] = []
readable_servers u ((name, server) ∷ servers) =
    if has_permission u name container_read
    then directory name ∷ readable_servers u servers
    else readable_servers u servers

unfoldable pub mount_infos : List Mount → List FileInfo
mount_infos [] = []
mount_infos (m ∷ ms) = directory (trim slash m.destination) ∷ mount_infos ms

-- The root: one directory for each container that the user may read.
unfoldable pub list_root : String → M (List FileInfo)
list_root user = do
  cfg ← call config_get
  pure (readable_servers (get_or user no_user cfg.users) cfg.servers)

-- A container: one directory for each mount, none where the inspection fails.
unfoldable pub list_container : String → M (List FileInfo)
list_container name = do
  r ← call (container_inspect name)
  elim r [ ok i ↦ pure (mount_infos i.mounts) | err _ ↦ pure [] ]

unfoldable pub entry_infos : List DirEntry → List FileInfo
entry_infos [] = []
entry_infos (e ∷ es) = record { name = e.name; is_dir = e.is_dir } ∷ entry_infos es
