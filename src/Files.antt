-- ===== src/Files.antt =====
-- internal/sftp/server.go and internal/webdav/server.go: where on the host the two file servers reach.
use play_bin.Base.{
  String, Bool, true, false, Option, none, List, [], ◌∷◌, ◌++◌, ◌≡◌, ◌≢◌, inl, inr, ap, sym, subst,
  ◌∙◌, All,
}
use mathlib.Core.List.{Memᴰ}
use play_bin.Base.Dict.{lookup}
use play_bin.Text.Paths.{is_rooted, clean_parts, render}
use play_bin.Text.Paths.Laws.{IsPlain}
use play_bin.World.{Mount, Inspect, ok, Trace, Env, config_get, container_inspect}
use play_bin.World.Laws.{Past}
use play_bin.Vfs.Confined.{IsMapped-IsPlain}
use play_bin.Sftp.Granted.{touches, IsGranted, AllGranted}
use play_bin.Sftp.Session.{Script, serve_connection}
use play_bin.Sftp.Session.Laws.{serve_connection-AllGranted}
use play_bin.Webdav.Session
use play_bin.Webdav.Session.Laws.{serve_request-AllGranted}

-- The host path is the cleaned source of a mount, followed by plain names only. The mount is one of a
-- container as the engine described it earlier in these calls.
pub record IsBelow (env : Env) (h : Trace) (p : String) : Type 0 where
  pub now : Trace
  pub recent : Past now h
  pub name : String
  pub container : Inspect
  pub inspected :
      env ((config_get, env now config_get) ∷ now) (container_inspect name) ≡ ok container
  pub mount : Mount
  pub mounted : Memᴰ mount container.mounts
  pub rest : List String
  pub plain : All IsPlain rest
  pub located : p ≡ render (is_rooted mount.source) (clean_parts mount.source ++ rest)

-- Every host path that the calls concern lies below a mount.
abbrev pub AllBelow : Bool → Env → Trace → Type 0
AllBelow both env [] = Unit
AllBelow both env (e ∷ h) = All (λ t. IsBelow env h t.1) (touches both e) × AllBelow both env h

module _ (env : Env) (no_up : (t : Trace) → lookup ".." (env t config_get).servers ≡ none)
    (sourced : (t : Trace) (name : String) (i : Inspect)
      → env t (container_inspect name) ≡ ok i
      → All (λ m. m.source ≢ "") i.mounts) where
  IsGranted-IsBelow :
      (user : String) (h : Trace) (t : Bool × String) → IsGranted user env h t → IsBelow env h t.1
  IsGranted-IsBelow user h t g =
      let r = g.mapped in
      let (plain, located) =
        IsMapped-IsPlain user env g.now g.path t.1 r
          (λ up. r.configured (ap (λ n. lookup n (env g.now config_get).servers) up ∙ no_up g.now))
          (sourced _ r.name r.container r.inspected) in
      record {
        now = g.now;
        recent = g.recent;
        name = r.name;
        container = r.container;
        inspected = r.inspected;
        mount = r.mount;
        mounted = r.mounted;
        rest = r.rest;
        plain = plain;
        located = located;
      }

  All-IsBelow :
      (user : String) (h : Trace) (ts : List (Bool × String))
      → All (IsGranted user env h) ts
      → All (λ t. IsBelow env h t.1) ts
  All-IsBelow user h [] all = tt
  All-IsBelow user h (t ∷ ts) (first, all) =
      (IsGranted-IsBelow user h t first, All-IsBelow user h ts all)

  AllGranted-AllBelow :
      (both : Bool) (user : String) (h : Trace) → AllGranted both user env h → AllBelow both env h
  AllGranted-AllBelow both user [] all = tt
  AllGranted-AllBelow both user (e ∷ h) (now, earlier) =
      (All-IsBelow user h (touches both e) now, AllGranted-AllBelow both user h earlier)

  -- If no configuration that may be read has a server named `..`, and the engine describes no mount
  -- without a source: whatever an SFTP connection asks for, in any order, and whatever the WebDAV
  -- library does for a request, each path of the host that a call lists, reads the attributes of,
  -- opens, creates, removes or renames, or moves something to, is the cleaned source of a mount, of
  -- a container as the engine described it earlier, followed by plain names only.
  pub files_confined :
      {A : Type 0} (user pass : String) (script : Script) (library : String → Session.Script A)
      (basic : Option (String × String)) (path : String)
      → AllBelow false env (serve_connection user pass script env []).1
        × AllBelow true env (Session.serve_request library basic path env []).1
  files_confined user pass script library basic path = (
    elim (serve_connection-AllGranted user pass script env) [
      | inl refused ↦ subst (AllBelow false env) (sym refused) (tt, tt)
      | inr (known, all) ↦ AllGranted-AllBelow false user _ all
    ],
    elim (serve_request-AllGranted library basic path env) [
      | inl refused ↦ subst (AllBelow true env) (sym refused) (tt, tt)
      | inr (who, known, all) ↦ AllGranted-AllBelow true who _ all
    ],
  )
