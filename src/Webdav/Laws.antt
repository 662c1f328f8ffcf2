-- ===== src/Webdav/Laws.antt =====
-- internal/webdav/server.go: which permissions the file operations rest on.
use play_bin.Base.{String, true, false, some, ◌≡◌, ◌↔◌, inl, inr, arith, eq_iff, Option-cases}
use play_bin.Base.Dict.{lookup}
use play_bin.Config.{UserConfig}
use play_bin.Config.Permission.{file_write}
use play_bin.World.{OpenFlags, err, permission, Trace, Env, config_get}
use play_bin.World.Laws.{mutations, writes}
use play_bin.Sftp.{first_part}
use play_bin.Sftp.Laws.{permits}
use play_bin.Webdav.{authorize, check_write_perm, mkdir, open_dav_file, remove_all_dav, rename_dav}

-- A request is let through for a user exactly when it carries that user's name with the password
-- of the configuration.
pub authorize_iff :
    (user pass name : String) (env : Env) (h : Trace)
    → ((authorize (some (user, pass)) env h).0 ≡ some name) ↔ (
        (u : UserConfig) × (lookup user (env h config_get).users ≡ some u)
        × (u.password ≡ pass)
        × (user ≡ name))
unfolding authorize
authorize_iff user pass name env h = elim (Option-cases (lookup user (env h config_get).users)) [
  | inl p ↦ (λ e. absurd (ground arith), λ (u, q, _, _). absurd (ground arith))
  | inr (u, p) ↦ (
    λ e. (u, p, ground (arith, eq_iff u.password pass), ground arith),
    λ (v, q, same, named). ground (arith, eq_iff u.password pass),
  )
]

-- In every configuration that may be read, the user lacks `file.write` on the container that the
-- check takes from the path.
abbrev pub IsDenied : Env → String → String → Type 0
IsDenied env user name = (h : Trace) → permits env h user (first_part name) file_write ≡ false

check_write_perm_denied :
    (user name : String) (env : Env) (h : Trace)
    → IsDenied env user name
    → ((check_write_perm user name env h).0 ≡ err permission)
      × (mutations (check_write_perm user name env h).1 ≡ mutations h)
unfolding check_write_perm first_part
check_write_perm_denied user name env h denied = ground (arith, denied h)

check_write_perm-mutations :
    (user name : String) (env : Env) (h : Trace)
    → mutations (check_write_perm user name env h).1 ≡ mutations h
unfolding check_write_perm
check_write_perm-mutations user name env h = ground arith

-- Without `file.write` on the container that a path begins with, in any configuration that may be
-- read, no operation changes a file: neither making or removing a directory, nor opening with a
-- flag that writes, nor a rename from or to that path.
pub writing_denied_dav :
    (user name new_name : String) (flag : OpenFlags) (env : Env) (h : Trace)
    → IsDenied env user name
    → writes flag ≡ true
    → (mutations (mkdir user name env h).1 ≡ mutations h)
      × (mutations (remove_all_dav user name env h).1 ≡ mutations h)
      × (mutations (open_dav_file user name flag env h).1 ≡ mutations h)
      × (mutations (rename_dav user name new_name env h).1 ≡ mutations h)
      × (mutations (rename_dav user new_name name env h).1 ≡ mutations h)
unfolding mkdir remove_all_dav open_dav_file rename_dav
writing_denied_dav user name new_name flag env h denied w =
    let (stopped, same) = check_write_perm_denied user name env h denied in
    let h' = (check_write_perm user new_name env h).1 in
    let (stopped', same') = check_write_perm_denied user name env h' denied in
    (
      ground arith,
      ground arith,
      ground arith,
      ground arith,
      ground (arith, check_write_perm-mutations user new_name env h),
    )
