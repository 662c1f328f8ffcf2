-- ===== src/Sftp/Session/Laws.antt =====
-- internal/sftp/server.go: whatever an SFTP client asks for, the files of the host that it reaches.
use play_bin.Base.{String, true, false, not, [], ◌∷◌, ◌≡◌, inl, inr, ◌⊎◌, subst, arith}
use play_bin.Base.Dict.{lookup}
use play_bin.World.{
  Trace, Env, config_get, container_inspect, read_dir, Error, vfs_root, vfs_container_root,
  not_found, other, fault, wrapped, permission, not_exist, invalid, eof,
}
use play_bin.World.Laws.{here, later, Result-cases, if-then, result-then}
use play_bin.Text.{trim}
use play_bin.Text.Paths.{slash}
use play_bin.Config.Permission.{file_write}
use play_bin.Vfs.Listing.{list_root, list_container}
use play_bin.Sftp.{
  authenticate, file_list, list_failed, file_read_request, file_write_request, may_write, Method,
  setstat, rename_method, rmdir, mkdir, remove, symlink_method, unknown, run_command, file_cmd,
  first_part,
}
use play_bin.Sftp.Laws.{permits}
use play_bin.Sftp.Connections.Laws.{IsLogin, authenticate-IsLogin, authenticate-calls}
use play_bin.Sftp.Granted.{
  IsGranted, IsGranted-later, AllGranted, read-IsGranted, write-IsGranted, after_mapping,
}
use play_bin.Sftp.Session.{
  Script, finished, filelist, fileread, filewrite, filecmd, run_script, serve_connection,
}

module _ (user : String) (env : Env) where
  -- A rename of the SFTP server asks for the permission on the old path only.
  abbrev AllFine : Trace → Type 0
  AllFine = AllGranted false user env

  list_failed-AllGranted :
      (path : String) (e : Error) (h : Trace)
      → AllFine h
      → AllFine (list_failed user path e env h).1
  unfolding list_failed list_root list_container
  list_failed-AllGranted path vfs_root h all = (tt, all)
  list_failed-AllGranted path vfs_container_root h all =
      let found = env h (container_inspect (trim slash path)) in
      result-then AllFine env ((container_inspect (trim slash path), found) ∷ h) found _ _
        (λ e bad. (tt, all)) (λ c good. (tt, all))
  list_failed-AllGranted path not_found h all = all
  list_failed-AllGranted path (other _) h all = all
  list_failed-AllGranted path (fault _) h all = all
  list_failed-AllGranted path (wrapped _ _) h all = all
  list_failed-AllGranted path permission h all = all
  list_failed-AllGranted path not_exist h all = all
  list_failed-AllGranted path invalid h all = all
  list_failed-AllGranted path eof h all = all

  file_list-AllGranted :
      (path : String) (h : Trace) → AllFine h → AllFine (file_list user path env h).1
  unfolding file_list
  file_list-AllGranted path h all =
      after_mapping false user env path h _ _ all (λ e t fine. list_failed-AllGranted path e t fine)
        (λ p t past good fine.
          let entries = env t (read_dir p) in
          let read : AllFine ((read_dir p, entries) ∷ t) =
            ((read-IsGranted user env path p h past good, tt), fine) in
          result-then AllFine env ((read_dir p, entries) ∷ t) entries _ _ (λ e bad. read)
            (λ es got. read))

  file_read-AllGranted :
      (path : String) (h : Trace) → AllFine h → AllFine (file_read_request user path env h).1
  unfolding file_read_request
  file_read-AllGranted path h all =
      after_mapping false user env path h _ _ all (λ e t fine. fine)
        (λ p t past good fine. ((read-IsGranted user env path p h past good, tt), fine))

  file_write-AllGranted :
      (path : String) (h : Trace) → AllFine h → AllFine (file_write_request user path env h).1
  unfolding file_write_request may_write
  file_write-AllGranted path h all =
      let h' : Trace = (config_get, env h config_get) ∷ h in
      if-then AllFine env h' (not (permits env h user (first_part path) file_write)) _ _
        (λ denied. (tt, all))
        (λ allowed.
          after_mapping false user env path h' _ _ (tt, all) (λ e t fine. fine)
            (λ p t past good fine. (
              (
                write-IsGranted user env path p h' h (later _ here) past good
                    (ground (arith, allowed)),
                tt,
              ),
              fine,
            )))

  run_command-AllGranted :
      (method : Method) (p target : String) (h : Trace)
      → IsGranted user env h (true, p)
      → AllFine h
      → AllFine (run_command user method p target env h).1
  unfolding run_command
  run_command-AllGranted setstat p target h granted all = all
  run_command-AllGranted rename_method p target h granted all =
      after_mapping false user env target h _ _ all (λ e t fine. fine)
        (λ q t past good fine. (
          (IsGranted-later past granted, (read-IsGranted user env target q h past good, tt)),
          fine,
        ))
  run_command-AllGranted rmdir p target h granted all = ((granted, tt), all)
  run_command-AllGranted mkdir p target h granted all = ((granted, tt), all)
  run_command-AllGranted remove p target h granted all = ((granted, tt), all)
  run_command-AllGranted symlink_method p target h granted all = all
  run_command-AllGranted unknown p target h granted all = all

  file_cmd-AllGranted :
      (method : Method) (path target : String) (h : Trace)
      → AllFine h
      → AllFine (file_cmd user method path target env h).1
  unfolding file_cmd may_write
  file_cmd-AllGranted method path target h all =
      let h' : Trace = (config_get, env h config_get) ∷ h in
      if-then AllFine env h' (not (permits env h user (first_part path) file_write)) _ _
        (λ denied. (tt, all))
        (λ allowed.
          after_mapping false user env path h' _ _ (tt, all) (λ e t fine. fine)
            (λ p t past good fine.
              run_command-AllGranted method p target t
                (write-IsGranted user env path p h' h (later _ here) past good
                  (ground (arith, allowed)))
                fine))

  run_script-AllGranted :
      (script : Script) (h : Trace) → AllFine h → AllFine (run_script user script env h).1
  unfolding run_script
  run_script-AllGranted finished h all = all
  run_script-AllGranted (filelist path k) h all =
      let r = file_list user path env h in
      run_script-AllGranted (k r.0) r.1 (file_list-AllGranted path h all)
  run_script-AllGranted (fileread path k) h all =
      let r = file_read_request user path env h in
      run_script-AllGranted (k r.0) r.1 (file_read-AllGranted path h all)
  run_script-AllGranted (filewrite path k) h all =
      let r = file_write_request user path env h in
      run_script-AllGranted (k r.0) r.1 (file_write-AllGranted path h all)
  run_script-AllGranted (filecmd method path target k) h all =
      let r = file_cmd user method path target env h in
      run_script-AllGranted (k r.0) r.1 (file_cmd-AllGranted method path target h all)

-- A connection whose name and password do not stand in the configuration makes no call but the one
-- that reads it. On any other, whatever the client asks for, in any order: each path of the host that
-- a call lists, opens, creates, removes or renames is one that `MapPath` gave for the user whom the
-- connection named, so it is the source of a mount of a configured container that this user could read
-- then, joined with the rest of the path; and each one that is opened for writing, created, removed or
-- moved away belongs to a request whose container the user could write when it came.
pub serve_connection-AllGranted :
    (user pass : String) (script : Script) (env : Env)
    → ((serve_connection user pass script env []).1 ≡ (config_get, env [] config_get) ∷ [])
      ⊎ (IsLogin user pass env [] user
          × AllGranted false user env (serve_connection user pass script env []).1)
unfolding serve_connection authenticate lookup
serve_connection-AllGranted user pass script env =
    let asked : Trace = (config_get, env [] config_get) ∷ [] in
    let only = authenticate-calls user pass env [] in
    elim (Result-cases (authenticate user pass env []).0) [
      | inr (e, bad) ↦ inl (rw bad only)
      | inl (name, good) ↦
          let known = authenticate-IsLogin user pass name env [] good in
          inr (
            subst (IsLogin user pass env []) known.0 known,
            rw (good, only, known.0) (run_script-AllGranted user env script asked (tt, tt)),
          )
    ]
