-- ===== src/Webdav/Session/Laws.antt =====
-- internal/webdav/server.go: whatever a WebDAV client asks for, the files of the host that it reaches.
use play_bin.Base.{String, true, Option, [], ◌∷◌, ◌≡◌, ◌⊎◌, inl, inr, ap, sym, subst}
use play_bin.Text.{strip_prefix}
use play_bin.World.{Trace, Env, config_get}
use play_bin.World.Laws.{option-then}
use play_bin.Sftp.Granted.{AllGranted}
use play_bin.Webdav.{
  mkdir, open_dav_file, remove_all_dav, rename_dav, stat_dav, VirtualDir, readdir,
}
use play_bin.Webdav.Server.{stripped}
use play_bin.Webdav.Server.Laws.{IsKnown, handler_guarded}
use play_bin.Webdav.Session.{
  Script, finished, call_mkdir, call_open, call_remove_all, call_rename, call_stat, call_readdir,
  run_script, serve_request,
}
use play_bin.Webdav.Session.Methods.{
  mkdir-AllGranted, remove_all-AllGranted, rename-AllGranted, stat-AllGranted, readdir-AllGranted,
  open-AllGranted,
}

module _ (user : String) (env : Env) where
  run_script-AllGranted :
      {A : Type 0} (script : Script A) (h : Trace)
      → AllGranted true user env h
      → AllGranted true user env (run_script user script env h).1
  unfolding run_script
  run_script-AllGranted (finished a) h all = all
  run_script-AllGranted (call_mkdir name k) h all =
      let r = mkdir user name env h in
      run_script-AllGranted (k r.0) r.1 (mkdir-AllGranted user env name h all)
  run_script-AllGranted (call_open name flag k) h all =
      let r = open_dav_file user name flag env h in
      run_script-AllGranted (k r.0) r.1 (open-AllGranted user env name flag h all)
  run_script-AllGranted (call_remove_all name k) h all =
      let r = remove_all_dav user name env h in
      run_script-AllGranted (k r.0) r.1 (remove_all-AllGranted user env name h all)
  run_script-AllGranted (call_rename old new k) h all =
      let r = rename_dav user old new env h in
      run_script-AllGranted (k r.0) r.1 (rename-AllGranted user env old new h all)
  run_script-AllGranted (call_stat name k) h all =
      let r = stat_dav user name env h in
      run_script-AllGranted (k r.0) r.1 (stat-AllGranted user env name h all)
  run_script-AllGranted (call_readdir is_root container_name offset count k) h all =
      let f : VirtualDir = record {
        user = user;
        is_root = is_root;
        container_name = container_name;
        offset = offset;
      } in
      let r = readdir f count env h in
      run_script-AllGranted (k r.0.0) r.1 (readdir-AllGranted user env f count h all)

  stripped-AllGranted :
      {A : Type 0} (library : String → Script A) (path : String) (h : Trace)
      → AllGranted true user env h
      → AllGranted true user env
          (stripped (λ name rest. run_script name (library rest)) user path env h).1
  unfolding stripped
  stripped-AllGranted library path h all =
      option-then (AllGranted true user env) env h (strip_prefix "/dav/" path) _ _ (λ other. all)
        (λ rest found. run_script-AllGranted (library rest) h all)

-- A WebDAV request whose header does not carry a user's name with the password of the configuration
-- makes no call but the one that reads it. On any other, whatever the library does for it with the
-- methods of its file system: each path of the host that a call reads the attributes of, opens,
-- creates, removes or renames is one that `MapPath` gave for that user, so it is the source of a mount
-- of a configured container that the user could read then, joined with the rest of the path; and each
-- one that is opened for writing, created, removed, moved away or moved to belongs to a name whose
-- container, as the name was sent, the user could write when it came.
pub serve_request-AllGranted :
    {A : Type 0} (library : String → Script A) (basic : Option (String × String)) (path : String)
    (env : Env)
    → ((serve_request library basic path env []).1 ≡ (config_get, env [] config_get) ∷ [])
      ⊎ ((user : String) × IsKnown basic env [] user
          × AllGranted true user env (serve_request library basic path env []).1)
unfolding serve_request
serve_request-AllGranted library basic path env =
    let inner = λ (user rest : String). run_script user (library rest) in
    elim (handler_guarded inner basic path env []) [
      | inl refused ↦ inl (ap (λ p. p.1) refused)
      | inr (user, known, same) ↦ inr (
        user,
        known,
        let asked : Trace = (config_get, env [] config_get) ∷ [] in
            subst (λ p. AllGranted true user env p.1) (sym same)
              (stripped-AllGranted user env library path asked (tt, tt)),
      )
    ]
