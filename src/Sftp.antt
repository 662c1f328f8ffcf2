-- ===== src/Sftp.antt =====
-- internal/sftp/server.go: the authentication and the file operations of the SFTP server. A request
-- is its path, with a method and a target where the operation reads them.
pub mod Laws
pub mod Paging
pub mod Connections
pub mod Granted
pub mod Session
use play_bin.Base.{
  head_text, ℕ, ◌-◌, String, Bool, true, false, not, ◌||◌, Option, none, some, List, [], ◌∷◌, ◌==◌,
  leb, ltb, length, take, drop, if◌then◌else◌,
}
use play_bin.Base.Dict.{lookup, get_or}
use play_bin.Text.{split, trim}
use play_bin.Text.Paths.{slash}
use play_bin.Config.{UserConfig, no_user}
use play_bin.Config.Permission.{has_permission, file_write}
use play_bin.World.{
  OpenFlags, read_only, Error, fault, permission, vfs_root, vfs_container_root, eof, Result, ok,
  err, Outcome, M, pure, call, ◌>>=◌, ◌>>◌, config_get, read_dir, open_file, rename, remove_all,
  make_dir_all, remove_file,
}
use play_bin.World.{FileInfo}
use play_bin.Vfs.{map_path}
use play_bin.Vfs.Listing.{list_root, list_container, entry_infos}

-- `authenticate`: the user that the session then acts for.
unfoldable pub authenticate : String → String → M (Result String)
authenticate user pass = do
  cfg ← call config_get
  elim (lookup user cfg.users) [
    | none ↦ pure (err (fault "authentication failed"))
    | some u ↦
        if u.password == pass then pure (ok user) else pure (err (fault "authentication failed"))
  ]

-- `strings.Split(strings.Trim(r.Filepath, "/"), "/")[0]`
unfoldable pub first_part : String → String
first_part path = head_text (split slash (trim slash path))

unfoldable pub list_failed : String → String → Error → M (Result (List FileInfo))
list_failed user path vfs_root = do items ← list_root user; pure (ok items)
list_failed user path vfs_container_root = do
  items ← list_container (trim slash path)
  pure (ok items)
list_failed user path e = pure (err e)

-- `Filelist`
unfoldable pub file_list : String → String → M (Result (List FileInfo))
unfolding list_failed
file_list user path = do
  r ← map_path user path
  elim r [
    | err e ↦ list_failed user path e
    | ok full_path ↦ do
      entries ← call (read_dir full_path)
      elim entries [ err e ↦ pure (err e) | ok es ↦ pure (ok (entry_infos es)) ]
  ]

-- `Fileread`
unfoldable pub file_read_request : String → String → M Outcome
file_read_request user path = do
  r ← map_path user path
  elim r [ err e ↦ pure (err e) | ok full_path ↦ call (open_file full_path read_only) ]

-- The test of the write permission in `Filewrite` and `Filecmd`.
unfoldable pub may_write : String → String → M Bool
may_write user path = do
  cfg ← call config_get
  pure (has_permission (get_or user no_user cfg.users) (first_part path) file_write)

abbrev pub overwrite : OpenFlags
overwrite = record { wronly = true; rdwr = false; append = false; create = true; trunc = true }

-- `Filewrite`
unfoldable pub file_write_request : String → String → M Outcome
file_write_request user path = do
  allowed ← may_write user path
  if not allowed then pure (err permission) else do
    r ← map_path user path
    elim r [ err e ↦ pure (err e) | ok full_path ↦ call (open_file full_path overwrite) ]

pub data Method : Type 0 where
  setstat rename_method rmdir mkdir remove symlink_method : Method
  -- any other text
  unknown : Method

-- The switch of `Filecmd`, for the resolved path.
unfoldable pub run_command : String → Method → String → String → M Outcome
run_command user setstat full_path target = pure (ok tt)
run_command user rename_method full_path target = do
  r ← map_path user target
  elim r [ err e ↦ pure (err e) | ok target_path ↦ call (rename full_path target_path) ]
run_command user rmdir full_path target = call (remove_all full_path)
run_command user mkdir full_path target = call (make_dir_all full_path)
run_command user remove full_path target = call (remove_file full_path)
run_command user symlink_method full_path target =
    pure (err (fault "[SFTP] シンボリックリンクの作成は許可されていません"))
run_command user unknown full_path target = pure (ok tt)

-- `Filecmd`
unfoldable pub file_cmd : String → Method → String → String → M Outcome
file_cmd user method path target = do
  allowed ← may_write user path
  if not allowed then pure (err permission) else do
    r ← map_path user path
    elim r [ err e ↦ pure (err e) | ok full_path ↦ run_command user method full_path target ]

-- `ListAt`, for a buffer of the given size and an offset that is not negative: what is copied, and
-- whether the result is `io.EOF`.
unfoldable pub list_at : List FileInfo → ℕ → ℕ → List FileInfo × Bool
list_at items size offset =
    if leb (length items) offset
    then ([], true)
    else let copied = take size (drop offset items) in (copied, ltb (length copied) size)
