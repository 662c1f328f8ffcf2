-- ===== src/Sftp/Granted.antt =====
-- internal/sftp/server.go, internal/webdav/server.go and internal/vfs/vfs.go: which files of the host a
-- user was granted.
use play_bin.Base.{refl, String, Bool, true, false, not, ◌||◌, List, [], ◌∷◌, ◌≡◌, All}
use play_bin.Config.Permission.{file_write}
use play_bin.World.{
  ok, err, Error, M, ◌>>=◌, Event, read_dir, open_file, rename, remove_all, make_dir_all,
  remove_file, file_info, symlink, Inspect, Result, Trace, Env, config_get, container_inspect,
}
use play_bin.World.Laws.{Past, here, later, past_trans, Keeps, writes, if-then, result-then}
use play_bin.Config.{Config}
use play_bin.Vfs.{path_parts, check_container, map_below, map_parts, map_path, is_root}
use play_bin.Vfs.Confined.{IsMapped, map_path-IsMapped}
use play_bin.Sftp.{first_part}
use play_bin.Sftp.Laws.{permits}

-- The host paths that a call concerns, each with whether it asks for the permission to write. What a
-- rename moves to asks for it where `both` says so.
abbrev pub touches : Bool → Event → List (Bool × String)
touches both (read_dir p, r) = (false, p) ∷ []
touches both (file_info p, r) = (false, p) ∷ []
touches both (open_file p flags, r) = (writes flags, p) ∷ []
touches both (rename p q, r) = (true, p) ∷ (both, q) ∷ []
touches both (remove_all p, r) = (true, p) ∷ []
touches both (make_dir_all p, r) = (true, p) ∷ []
touches both (remove_file p, r) = (true, p) ∷ []
touches both (symlink p q, r) = (true, p) ∷ (true, q) ∷ []
touches both _ = []

-- Earlier in these calls, `MapPath` gave the host path for a path of the user, who could thus read its
-- container then; to write, the user had `file.write` on the container that the path begins with, and
-- this was asked before.
pub record IsGranted (user : String) (env : Env) (h : Trace) (touched : Bool × String)
    : Type 0 where
  pub path : String
  pub now : Trace
  pub earlier : Trace
  pub recent : Past now h
  pub asked : Past earlier now
  pub mapped : IsMapped user env now (path_parts path) touched.1
  pub writable : (not touched.0 || permits env earlier user (first_part path) file_write) ≡ true

pub IsGranted-later :
    {user : String} {env : Env} {h t : Trace} {touched : Bool × String}
    → Past h t
    → IsGranted user env h touched
    → IsGranted user env t touched
IsGranted-later past g = record {
  path = g.path;
  now = g.now;
  earlier = g.earlier;
  recent = past_trans g.recent past;
  asked = g.asked;
  mapped = g.mapped;
  writable = g.writable;
}

-- The user was granted all that the calls concern, before each of them.
abbrev pub AllGranted : Bool → String → Env → Trace → Type 0
AllGranted both user env [] = Unit
AllGranted both user env (e ∷ h) =
    All (IsGranted user env h) (touches both e) × AllGranted both user env h

module _ (I : Trace → Type 0)
    (config : (cfg : Config) (h : Trace) → I h → I ((config_get, cfg) ∷ h))
    (inspect : (name : String) (r : Result Inspect) (h : Trace)
      → I h
      → I ((container_inspect name, r) ∷ h)) where
  map_below-Keeps : (name : String) (parts : List String) → Keeps I (map_below name parts)
  unfolding map_below
  map_below-Keeps name [] env h i = i
  map_below-Keeps name (t ∷ rest) env h i =
      let found = env h (container_inspect name) in
      let i' = inspect name found h i in
      result-then I env ((container_inspect name, found) ∷ h) found _ _ (λ e bad. i') (λ c good. i')

  map_parts-Keeps : (user : String) (parts : List String) → Keeps I (map_parts user parts)
  unfolding map_parts
  map_parts-Keeps user [] env h i = i
  map_parts-Keeps user (name ∷ rest) env h i =
      let h' : Trace = (config_get, env h config_get) ∷ h in
      let i' = config (env h config_get) h i in
      if-then I env h (is_root name rest) _ _ (λ root. i)
        (λ below.
          result-then I env h' (check_container (env h config_get) user name) _ _ (λ e bad. i')
            (λ u good. map_below-Keeps name rest env h' i'))

  pub map_path-Keeps : (user path : String) → Keeps I (map_path user path)
  unfolding map_path
  map_path-Keeps user path env h i = map_parts-Keeps user (path_parts path) env h i

-- `MapPath` concerns no file itself.
pub map_path-AllGranted :
    (both : Bool) (owner : String) (env : Env) (user path : String) (h : Trace)
    → AllGranted both owner env h
    → AllGranted both owner env (map_path user path env h).1
map_path-AllGranted both owner env user path h all =
    map_path-Keeps (AllGranted both owner env) (λ cfg t i. (tt, i)) (λ name r t i. (tt, i)) user
      path env h all

map_path-Past : (user path : String) (env : Env) (h : Trace) → Past h (map_path user path env h).1
map_path-Past user path env h =
    map_path-Keeps (Past h) (λ cfg t past. later _ past) (λ name r t past. later _ past) user path
      env h here

module _ (user : String) (env : Env) where
  pub read-IsGranted :
      {t : Trace} (path p : String) (h : Trace)
      → Past h t
      → (map_path user path env h).0 ≡ ok p
      → IsGranted user env t (false, p)
  read-IsGranted path p h recent good = record {
    path = path;
    now = h;
    earlier = h;
    recent = recent;
    asked = here;
    mapped = map_path-IsMapped user path env h p good;
    writable = refl;
  }

  pub write-IsGranted :
      {t : Trace} (path p : String) (now earlier : Trace)
      → Past earlier now
      → Past now t
      → (map_path user path env now).0 ≡ ok p
      → permits env earlier user (first_part path) file_write ≡ true
      → IsGranted user env t (true, p)
  write-IsGranted path p now earlier asked recent good allowed = record {
    path = path;
    now = now;
    earlier = earlier;
    recent = recent;
    asked = asked;
    mapped = map_path-IsMapped user path env now p good;
    writable = allowed;
  }

-- What follows on `MapPath`.
pub after_mapping {ℓ} :
    (both : Bool) (user : String) (env : Env) {B : Type ℓ} (path : String) (h : Trace)
    (f : Error → M B) (g : String → M B)
    → AllGranted both user env h
    → ((e : Error) (t : Trace)
        → AllGranted both user env t
        → AllGranted both user env (f e env t).1)
    → ((p : String) (t : Trace)
        → Past h t
        → (map_path user path env h).0 ≡ ok p
        → AllGranted both user env t
        → AllGranted both user env (g p env t).1)
    → (let m : M B = map_path user path >>= λ r. elim r [ err e ↦ f e | ok p ↦ g p ] in
        AllGranted both user env (m env h).1)
after_mapping both user env path h f g all on_err on_ok =
    let t = (map_path user path env h).1 in
    let mapped = map_path-AllGranted both user env user path h all in
    let past = map_path-Past user path env h in
    result-then (AllGranted both user env) env t (map_path user path env h).0 f g
      (λ e bad. on_err e t mapped) (λ p good. on_ok p t past good mapped)
