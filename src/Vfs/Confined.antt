-- ===== src/Vfs/Confined.antt =====
-- internal/vfs/vfs.go: what `MapPath` grants, and where its result lies.
use play_bin.Base.{
  head_text, String, true, none, List, [], ◌∷◌, ◌++◌, ◌==◌, ◌≡◌, ◌≢◌, inl, inr, refl, sym, ap, ◌∙◌,
  arith, eq_iff, All, Bool-cases, List-cases, subst,
}
use mathlib.Core.List.{Memᴰ}
use play_bin.Base.Dict.{lookup, get_or}
use play_bin.Text.{split, join, trim}
use play_bin.Text.Paths.{slash, is_rooted, clean, clean_parts, render, rel_path, join_path}
use play_bin.Text.Paths.Laws.{IsPlain}
use play_bin.Text.Paths.Relative.{join_path-rel_path}
use play_bin.Text.Paths.Cleaned.{clean_parts-IsPlain, split-trim-clean}
use play_bin.Config.{Config, no_user}
use play_bin.Config.Permission.{has_permission, container_read}
use play_bin.World.{Mount, Inspect, ok, Trace, Env, config_get, container_inspect}
use play_bin.World.Laws.{Result-cases}
use play_bin.Vfs.{path_parts, find_mount, map_below, check_container, map_parts, map_path}

-- What `MapPath` has established when it returns the host path `p` for the parts of a path.
pub record IsMapped (user : String) (env : Env) (h : Trace) (parts : List String) (p : String)
    : Type 0 where
  pub name : String
  pub target : String
  pub rest : List String
  pub container : Inspect
  pub mount : Mount
  pub shape : parts ≡ name ∷ target ∷ rest
  pub allowed :
      has_permission (get_or user no_user (env h config_get).users) name container_read ≡ true
  pub configured : lookup name (env h config_get).servers ≢ none
  pub inspected : env ((config_get, env h config_get) ∷ h) (container_inspect name) ≡ ok container
  pub mounted : Memᴰ mount container.mounts
  pub named : trim slash mount.destination ≡ target
  pub joined : p ≡ join_path mount.source (rel_path target (join "/" (target ∷ rest)))

abbrev Found : List Mount → String → List String → String → Type 0
Found ms target parts p =
    (m : Mount) × Memᴰ m ms
    × (trim slash m.destination ≡ target)
    × (p ≡ join_path m.source (rel_path target (join "/" parts)))

find_mount-Found :
    (ms : List Mount) (target : String) (parts : List String) (p : String)
    → find_mount ms target parts ≡ ok p
    → Found ms target parts p
unfolding find_mount
find_mount-Found [] target parts p e = cc
find_mount-Found (m ∷ ms) target parts p e =
    elim (Bool-cases (trim slash m.destination == target)) [
      | inl same ↦ (m, Memᴰ.head refl, (eq_iff _ _).0 same, ground arith)
      | inr other ↦
          let (n, listed, named, joined) = find_mount-Found ms target parts p (ground arith) in
          (n, Memᴰ.tail listed, named, joined)
    ]

check_container_ok :
    (cfg : Config) (user name : String) {u : Unit {0}}
    → check_container cfg user name ≡ ok u
    → (has_permission (get_or user no_user cfg.users) name container_read ≡ true)
      × (lookup name cfg.servers ≢ none)
unfolding check_container
check_container_ok cfg user name e = ground arith

-- What `MapPath` has established below the container.
abbrev Below : Env → Trace → String → List String → String → Type 0
Below env h name parts p =
    (target : String) × (rest : List String) × (i : Inspect) × (parts ≡ target ∷ rest)
    × (env h (container_inspect name) ≡ ok i)
    × (find_mount i.mounts target (target ∷ rest) ≡ ok p)

map_below-Below :
    (name : String) (parts : List String) (env : Env) (h : Trace) (p : String)
    → (map_below name parts env h).0 ≡ ok p
    → Below env h name parts p
unfolding map_below
map_below-Below name [] env h p e = cc
map_below-Below name (target ∷ rest) env h p e =
    elim (Result-cases (env h (container_inspect name))) [
      | inr (x, q) ↦ absurd (ground arith)
      | inl (i, q) ↦ (target, rest, i, refl, q, ground arith)
    ]

map_parts-IsMapped :
    (user : String) (parts : List String) (env : Env) (h : Trace) (p : String)
    → (map_parts user parts env h).0 ≡ ok p
    → IsMapped user env h parts p
unfolding map_parts
map_parts-IsMapped user [] env h p e = cc
map_parts-IsMapped user (name ∷ rest) env h p e =
    elim (Result-cases (check_container (env h config_get) user name)) [
      | inr (x, q) ↦ absurd (ground arith)
      | inl (u, q) ↦
          let h₁ : Trace = (config_get, env h config_get) ∷ h in
          let (allowed, configured) = check_container_ok (env h config_get) user name q in
          let (target, more, i, shape, inspected, found) =
            map_below-Below name rest env h₁ p (ground arith) in
          let (m, listed, named, joined) =
            find_mount-Found i.mounts target (target ∷ more) p found in
          record {
            name = name;
            target = target;
            rest = more;
            container = i;
            mount = m;
            shape = ap (λ l. name ∷ l) shape;
            allowed = allowed;
            configured = configured;
            inspected = inspected;
            mounted = listed;
            named = named;
            joined = joined;
          }
    ]

-- When `MapPath` returns a host path, the user may read the container that the path names, the
-- container is configured, and the result is the source of one of its mounts, which the second part
-- of the path names, joined with the parts that follow.
pub map_path-IsMapped :
    (user path : String) (env : Env) (h : Trace) (p : String)
    → (map_path user path env h).0 ≡ ok p
    → IsMapped user env h (path_parts path) p
unfolding map_path
map_path-IsMapped user path env h p e = map_parts-IsMapped user (path_parts path) env h p e

-- `path_parts` gives the parts of the cleaned path, if there are any.
pub path_parts-clean_parts :
    (path : String) → clean_parts path ≢ [] → path_parts path ≡ clean_parts path
unfolding path_parts
path_parts-clean_parts path ne = split-trim-clean path ne

path_parts-single :
    (path : String) → clean_parts path ≡ [] → (p : String) × (path_parts path ≡ p ∷ [])
unfolding path_parts clean render split trim join
path_parts-single path e = elim (Bool-cases (is_rooted path)) [
  | inl rooted ↦ ("", rw (e, rooted))
  | inr relative ↦ (".", rw (e, relative))
]

-- All the parts of a path with two parts or more are plain names, unless the first is `..`.
path_parts-IsPlain :
    (path name target : String) (rest : List String)
    → path_parts path ≡ name ∷ target ∷ rest
    → name ≢ ".."
    → All IsPlain (name ∷ target ∷ rest)
path_parts-IsPlain path name target rest e up = elim (List-cases (clean_parts path)) [
  | inl none_left ↦ let (p, single) = path_parts-single path none_left in cc (single, e)
  | inr some_left ↦
      let same = path_parts-clean_parts path some_left in
      elim (clean_parts-IsPlain path) [
        | inl plain ↦ subst (All IsPlain) (sym same ∙ e) plain
        | inr (qs, led) ↦ absurd (up (cc (e, same, led)))
      ]
]

HasSource-Memᴰ :
    {m : Mount} {ms : List Mount} → Memᴰ m ms → All (λ n. n.source ≢ "") ms → m.source ≢ ""
HasSource-Memᴰ (Memᴰ.head e) h = rw e h.0
HasSource-Memᴰ (Memᴰ.tail l) h = HasSource-Memᴰ l h.1

pub IsMapped-IsPlain :
    (user : String) (env : Env) (h : Trace) (path p : String)
    (r : IsMapped user env h (path_parts path) p)
    → r.name ≢ ".."
    → All (λ m. m.source ≢ "") r.container.mounts
    → All IsPlain r.rest
      × (p ≡ render (is_rooted r.mount.source) (clean_parts r.mount.source ++ r.rest))
IsMapped-IsPlain user env h path p r up sources =
    let plain = path_parts-IsPlain path r.name r.target r.rest r.shape up in
    (
      plain.1.1,
      r.joined
          ∙ join_path-rel_path r.mount.source r.target r.rest (HasSource-Memᴰ r.mounted sources)
              plain.1,
    )

-- A path that `MapPath` returns stays below a mount: if the path's container is not named `..`, and
-- each of the container's mounts has a source, then the result is the cleaned source of one of the
-- mounts, followed by plain names only.
pub map_path_confined :
    (user path : String) (env : Env) (h : Trace) (p : String) (i : Inspect)
    → (map_path user path env h).0 ≡ ok p
    → head_text (path_parts path) ≢ ".."
    → env ((config_get, env h config_get) ∷ h) (container_inspect (head_text (path_parts path)))
      ≡ ok i
    → All (λ m. m.source ≢ "") i.mounts
    → (m : Mount) × (rest : List String) × Memᴰ m i.mounts
      × All IsPlain rest
      × (p ≡ render (is_rooted m.source) (clean_parts m.source ++ rest))
map_path_confined user path env h p i e up inspected sources =
    let r = map_path-IsMapped user path env h p e in
    let same : r.container ≡ i = cc (r.shape, r.inspected, inspected) in
    let (plain, located) =
      IsMapped-IsPlain user env h path p r (subst (λ l. head_text l ≢ "..") r.shape up)
        (subst (λ c. All (λ m. m.source ≢ "") c.mounts) (sym same) sources) in
    (r.mount, r.rest, subst (λ c. Memᴰ r.mount c.mounts) same r.mounted, plain, located)
