-- ===== src/Config/Permission.antt =====
-- internal/config/config.go: the permission constants and the matching of permissions.
pub mod Laws
use play_bin.Base.{
  String, Bool, true, false, ◌||◌, Option, none, some, List, [], ◌∷◌, ◌==◌, if◌then◌else◌, ◌≡◌,
  refl,
}
use play_bin.Base.Dict.{Dict, lookup, get_or}
use play_bin.Text.{split}
use play_bin.Config.{UserConfig, no_user}

abbrev pub file_read : String
file_read = "file.read"

abbrev pub file_write : String
file_write = "file.write"

abbrev pub container_read : String
container_read = "container.read"

abbrev pub container_write : String
container_write = "container.write"

abbrev pub container_execute : String
container_execute = "container.execute.*"

abbrev pub perm_start : String
perm_start = "container.execute.start"

abbrev pub perm_stop : String
perm_stop = "container.execute.stop"

abbrev pub perm_kill : String
perm_kill = "container.execute.kill"

abbrev pub perm_backup : String
perm_backup = "container.execute.backup"

abbrev pub perm_restore : String
perm_restore = "container.execute.restore"

abbrev pub perm_remove : String
perm_remove = "container.execute.remove"

-- The loop of `matchRecursive` over the parts that are left of both permissions. At its end the
-- lengths are equal when no required part is left.
unfoldable pub match_parts : List String → List String → Bool
match_parts [] [] = true
match_parts [] (r ∷ rs) = false
match_parts (p ∷ ps) [] = p == "*"
match_parts (p ∷ ps) (r ∷ rs) =
    let rest = match_parts ps rs in if p == "*" then true else if p == r then rest else false

unfoldable pub match_recursive : String → String → Bool
unfolding match_parts split
match_recursive user_perm required =
    if user_perm == "*"
    then true
    else if user_perm == required
    then true
    else match_parts (split b'.' user_perm) (split b'.' required)

unfoldable pub check_permission : List String → String → Bool
unfolding match_recursive
check_permission [] required = false
check_permission (p ∷ ps) required =
    if match_recursive p required then true else check_permission ps required

unfoldable pub has_permission : UserConfig → String → String → Bool
unfolding check_permission lookup
has_permission u server required = elim u.permissions [
  | none ↦ false
  | some perms ↦
      if check_permission (get_or server [] perms) required
      then true
      else check_permission (get_or "*" [] perms) required
]

abbrev reader : UserConfig
reader = record {
  discord = "";
  password = "pw";
  permissions = some (("mc", "container.read" ∷ []) ∷ ("*", "file.*" ∷ []) ∷ []);
}

permission_tests :
    (match_recursive "container.*" "container.read" ≡ true)
    × (match_recursive "container" "container.read" ≡ false)
    × (match_recursive "container.execute.start" "container.execute.*" ≡ false)
    × (match_recursive "file.*" "file" ≡ true)
    × (match_recursive "*.read" "container.write" ≡ true)
    × (has_permission reader "mc" container_read ≡ true)
    × (has_permission reader "web" container_read ≡ false)
    × (has_permission reader "web" file_write ≡ true)
    × (has_permission no_user "mc" container_read ≡ false)
unfolding has_permission match_recursive
permission_tests = (refl, refl, refl, refl, refl, refl, refl, refl, refl)
