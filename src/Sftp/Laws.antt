-- ===== src/Sftp/Laws.antt =====
-- internal/sftp/server.go: which permissions the file operations rest on.
use play_bin.Base.{
  head_text, String, Bool, true, false, some, List, [], ◌∷◌, ◌≡◌, ◌↔◌, inl, inr, refl, ap, arith,
  eq_iff, subst, Option-cases,
}
use play_bin.Base.Dict.{lookup, get_or}
use play_bin.Text.{split, trim}
use play_bin.Text.Paths.{slash, clean}
use play_bin.Config.{UserConfig, no_user}
use play_bin.Config.Permission.{has_permission, file_write}
use play_bin.World.{ok, err, permission, Trace, Env, config_get, rename}
use play_bin.World.Laws.{mutations}
use play_bin.Vfs.{path_parts, map_below, map_parts, map_path}
use play_bin.Vfs.Listing.{list_root, list_container}
use play_bin.Sftp.{
  authenticate, first_part, file_list, file_read_request, may_write, file_write_request, Method,
  rename_method, run_command, file_cmd,
}

-- A session is opened for a user exactly when the configuration has the user with that password,
-- and then it acts for that user.
pub authenticate_iff :
    (user pass : String) (env : Env) (h : Trace)
    → ((authenticate user pass env h).0 ≡ ok user)
      ↔ ((u : UserConfig) × (lookup user (env h config_get).users ≡ some u) × (u.password ≡ pass))
unfolding authenticate
authenticate_iff user pass env h = elim (Option-cases (lookup user (env h config_get).users)) [
  | inl p ↦ (λ e. absurd (ground arith), λ (u, q, _). absurd (ground arith))
  | inr (u, p) ↦ (
    λ e. (u, p, ground (arith, eq_iff u.password pass)),
    λ (v, q, same). ground (arith, eq_iff u.password pass),
  )
]

map_below-mutations :
    (name : String) (parts : List String) (env : Env) (h : Trace)
    → mutations (map_below name parts env h).1 ≡ mutations h
unfolding map_below
map_below-mutations name [] env h = refl
map_below-mutations name (t ∷ rest) env h = ground arith

map_parts-mutations :
    (user : String) (parts : List String) (env : Env) (h : Trace)
    → mutations (map_parts user parts env h).1 ≡ mutations h
unfolding map_parts
map_parts-mutations user [] env h = refl
map_parts-mutations user (name ∷ rest) env h =
    ground (arith, map_below-mutations name rest env ((config_get, env h config_get) ∷ h))

pub map_path-mutations :
    (user path : String) (env : Env) (h : Trace)
    → mutations (map_path user path env h).1 ≡ mutations h
unfolding map_path
map_path-mutations user path env h = map_parts-mutations user (path_parts path) env h

-- Listing a directory and opening a file for reading change no file, whatever is asked.
pub reading-mutations :
    (user path : String) (env : Env) (h : Trace)
    → (mutations (file_list user path env h).1 ≡ mutations h)
      × (mutations (file_read_request user path env h).1 ≡ mutations h)
unfolding file_list file_read_request list_root list_container
reading-mutations user path env h = (
  ground (arith, map_path-mutations user path env h),
  ground (arith, map_path-mutations user path env h),
)

-- The permission that the configuration, as it is at this point, gives to the user.
abbrev pub permits : Env → Trace → String → String → String → Bool
permits env h user server perm =
    has_permission (get_or user no_user (env h config_get).users) server perm

-- Without `file.write` on the container that the path names, for a path that is cleaned as the SFTP
-- library hands it on, no writing operation changes a file: it fails with a permission error, and
-- its only call is the one that reads the configuration.
pub writing_denied :
    (user path target : String) (method : Method) (env : Env) (h : Trace)
    → clean path ≡ path
    → permits env h user (head_text (path_parts path)) file_write ≡ false
    → (file_write_request user path env h ≡ (err permission, (config_get, env h config_get) ∷ h))
      × (file_cmd user method path target env h
          ≡ (err permission, (config_get, env h config_get) ∷ h))
unfolding file_write_request file_cmd may_write first_part path_parts
writing_denied user path target method env h cleaned denied =
    let same : head_text (path_parts path) ≡ first_part path =
      ap (λ t. head_text (split slash (trim slash t))) cleaned in
    let no_perm : permits env h user (first_part path) file_write ≡ false =
      subst (λ n. permits env h user n file_write ≡ false) same denied in
    (rw no_perm, rw no_perm)

-- A rename tests `file.write` for the old path only: where the old path may be written and both
-- paths resolve, the file is moved, also if the user lacks `file.write` on the new path's
-- container.
pub rename_into_read_only :
    (user path target p q : String) (env : Env) (h h₁ h₂ : Trace)
    → permits env h user (first_part path) file_write ≡ true
    → permits env h user (first_part target) file_write ≡ false
    → map_path user path env ((config_get, env h config_get) ∷ h) ≡ (ok p, h₁)
    → map_path user target env h₁ ≡ (ok q, h₂)
    → (file_cmd user rename_method path target env h).1 ≡ (rename p q, env h₂ (rename p q)) ∷ h₂
unfolding file_cmd may_write run_command
rename_into_read_only user path target p q env h h₁ h₂ yes_old no_new old new = ground arith
