-- ===== src/Webdav.antt =====
-- internal/webdav/server.go: the authentication of a request, and the file system that the WebDAV
-- library calls.
pub mod Laws
pub mod Paging
pub mod Server
pub mod Session
pub mod Unclean
use play_bin.Base.{
  ℕ, ◌+◌, ◌-◌, String, Bool, true, false, not, ◌&&◌, ◌||◌, Option, none, some, List, [], ◌∷◌, ◌==◌,
  leb, ltb, length, take, drop, head_text, if◌then◌else◌,
}
use play_bin.Base.Dict.{lookup, get_or}
use play_bin.Text.{split, trim}
use play_bin.Text.Paths.{slash}
use play_bin.Config.{UserConfig, no_user}
use play_bin.Config.Permission.{has_permission, file_write}
use play_bin.World.{
  OpenFlags, Error, permission, invalid, vfs_root, vfs_container_root, Result, ok, err, Outcome, M,
  pure, call, ◌>>=◌, ◌>>◌, config_get, file_info, open_file, rename, remove_all, make_dir_all,
}
use play_bin.World.Laws.{writes}
use play_bin.World.{FileInfo}
use play_bin.Vfs.{map_path}
use play_bin.Vfs.Listing.{directory, list_root, list_container}

-- `Handler`: the user that the request acts for, or `none` for a 401. The header is what
-- `r.BasicAuth()` reads.
unfoldable pub authorize : Option (String × String) → M (Option String)
authorize none = do cfg ← call config_get; pure none
authorize (some (username, password)) = do
  cfg ← call config_get
  elim (lookup username cfg.users) [
    | none ↦ pure none
    | some u ↦ if u.password == password then pure (some username) else pure none
  ]

-- `checkWritePerm`
unfoldable pub check_write_perm : String → String → M Outcome
check_write_perm user path =
    let name = head_text (split slash (trim slash path)) in
    if name == "" then pure (err permission) else do
      cfg ← call config_get
      if has_permission (get_or user no_user cfg.users) name file_write
          then pure (ok tt)
          else pure (err permission)

-- A step that runs if the one before it succeeded.
infixl 5 ◌>>?◌
abbrev pub ◌>>?◌ {ℓ} : {A : Type 0} {B : Type ℓ} → M (Result A) → (A → M (Result B)) → M (Result B)
m >>? k = m >>= λ r. elim r [ err e ↦ pure (err e) | ok a ↦ k a ]

-- `Mkdir`
unfoldable pub mkdir : String → String → M Outcome
mkdir user name = check_write_perm user name >>? λ _.
    map_path user name >>? λ full_path. call (make_dir_all full_path)

-- `webdav.File`: an open file of the host, or a virtual directory (`vfsWebdavFile`).
pub record VirtualDir : Type 0 where
  pub user : String
  pub is_root : Bool
  pub container_name : String
  pub offset : ℕ

pub data DavFile : Type 0 where
  host_file : String → DavFile
  virtual_dir : VirtualDir → DavFile

abbrev pub open_dir : String → Bool → String → DavFile
open_dir user is_root name =
    virtual_dir (record { user = user; is_root = is_root; container_name = name; offset = 0 })

unfoldable pub open_host : String → OpenFlags → M (Result DavFile)
open_host full_path flag = do
  r ← call (open_file full_path flag)
  elim r [ err e ↦ pure (err e) | ok _ ↦ pure (ok (host_file full_path)) ]

unfoldable pub open_failed : String → String → Error → Result DavFile
open_failed user name vfs_root = ok (open_dir user true "")
open_failed user name vfs_container_root = ok (open_dir user false (trim slash name))
open_failed user name e = err e

abbrev pub checked : String → String → OpenFlags → M Outcome
checked user name flag = if writes flag then check_write_perm user name else pure (ok tt)

-- `OpenFile`
unfoldable pub open_dav_file : String → String → OpenFlags → M (Result DavFile)
unfolding open_host open_failed
open_dav_file user name flag = checked user name flag >>? λ _. do
  r ← map_path user name
  elim r [ err e ↦ pure (open_failed user name e) | ok full_path ↦ open_host full_path flag ]

-- `RemoveAll`
unfoldable pub remove_all_dav : String → String → M Outcome
remove_all_dav user name = check_write_perm user name >>? λ _.
    map_path user name >>? λ full_path. call (remove_all full_path)

-- `Rename`
unfoldable pub rename_dav : String → String → String → M Outcome
rename_dav user old_name new_name = check_write_perm user old_name >>? λ _.
    check_write_perm user new_name >>? λ _. map_path user old_name >>? λ old_path.
    map_path user new_name >>? λ new_path. call (rename old_path new_path)

-- `Stat`
unfoldable pub stat_failed : String → Error → M (Result FileInfo)
stat_failed name vfs_root = pure (ok (directory ""))
stat_failed name vfs_container_root = pure (ok (directory (trim slash name)))
stat_failed name e = pure (err e)

unfoldable pub stat_dav : String → String → M (Result FileInfo)
unfolding stat_failed
stat_dav user name = do
  r ← map_path user name
  elim r [ err e ↦ stat_failed name e | ok full_path ↦ call (file_info full_path) ]

-- The part of `Readdir` that follows the listing: the page, and the new offset. A count of 0 stands
-- for every count that is not positive.
unfoldable pub page : List FileInfo → ℕ → ℕ → List FileInfo × ℕ
page items offset count =
    if leb (length items) offset
    then ([], offset)
    else let end =
        if ltb 0 count && ltb (offset + count) (length items)
        then offset + count
        else length items in
      (take (end - offset) (drop offset items), end)

-- `Readdir` of a virtual directory
unfoldable pub readdir : VirtualDir → ℕ → M (List FileInfo × VirtualDir)
readdir f count = do
  items ←
      (if f.is_root then list_root f.user else call config_get >> list_container f.container_name)
  pure ((page items f.offset count).0, record f { offset = (page items f.offset count).1 })

-- The other methods of a virtual directory: it can be neither read nor written as a file.
unfoldable pub stat_virtual : VirtualDir → FileInfo
stat_virtual f = directory (if f.is_root then "" else f.container_name)

abbrev pub read_virtual : VirtualDir → Outcome
read_virtual f = err invalid

abbrev pub seek_virtual : VirtualDir → Outcome
seek_virtual f = err invalid

abbrev pub write_virtual : VirtualDir → Outcome
write_virtual f = err permission
