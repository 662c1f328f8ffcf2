-- ===== src/Webdav/Session/Methods.antt =====
-- internal/webdav/server.go: the files of the host that each method of the file system reaches.
use play_bin.Base.{
  ℕ, String, true, ◌==◌, head_text, ◌∷◌, ◌≡◌, inl, inr, arith, Bool-cases, sym, subst,
}
use play_bin.Text.{split, trim}
use play_bin.Text.Paths.{slash}
use play_bin.Config.Permission.{file_write}
use play_bin.World.{
  OpenFlags, Error, vfs_root, vfs_container_root, not_found, other, fault, wrapped, permission,
  not_exist, invalid, eof, ok, err, Trace, Env, M, ◌>>=◌, config_get, container_inspect, open_file,
}
use play_bin.World.Laws.{Past, here, later, past_trans, if-then, result-then, writes}
use play_bin.Vfs.Listing.{list_root, list_container}
use play_bin.Sftp.{first_part}
use play_bin.Sftp.Laws.{permits}
use play_bin.Sftp.Granted.{IsGranted, AllGranted, read-IsGranted, write-IsGranted, after_mapping}
use play_bin.Webdav.{
  check_write_perm, mkdir, open_dav_file, open_host, remove_all_dav, rename_dav, stat_dav,
  stat_failed, VirtualDir, readdir,
}

module _ (user : String) (env : Env) where
  abbrev pub AllFine : Trace → Type 0
  AllFine = AllGranted true user env

  -- The user had `file.write` on the container that the path begins with, after these calls.
  abbrev MayWrite : String → Trace → Type 0
  MayWrite name t = permits env t user (first_part name) file_write ≡ true

  check-AllGranted :
      (name : String) (h : Trace) → AllFine h → AllFine (check_write_perm user name env h).1
  unfolding check_write_perm
  check-AllGranted name h all =
      let h' : Trace = (config_get, env h config_get) ∷ h in
      if-then AllFine env h (head_text (split slash (trim slash name)) == "") _ _ (λ root. all)
        (λ below.
          if-then AllFine env h'
            (permits env h user (head_text (split slash (trim slash name))) file_write) _ _
            (λ may. (tt, all)) (λ denied. (tt, all)))

  check-Past : (name : String) (h : Trace) → Past h (check_write_perm user name env h).1
  unfolding check_write_perm
  check-Past name h =
      let h' : Trace = (config_get, env h config_get) ∷ h in
      if-then (Past h) env h (head_text (split slash (trim slash name)) == "") _ _ (λ root. here)
        (λ below.
          if-then (Past h) env h'
            (permits env h user (head_text (split slash (trim slash name))) file_write) _ _
            (λ may. later _ here) (λ denied. later _ here))

  check_passed :
      (name : String) (h : Trace) {u : Unit {0}}
      → (check_write_perm user name env h).0 ≡ ok u
      → MayWrite name h
  unfolding check_write_perm first_part
  check_passed name h passed = ground (arith, passed)

  -- What follows on `checkWritePerm`.
  after_check {ℓ} :
      {B : Type ℓ} (name : String) (h : Trace) (f : Error → M B) (g : Unit {0} → M B)
      → AllFine h
      → ((e : Error) (t : Trace) → AllFine t → AllFine (f e env t).1)
      → ((t : Trace) → Past h t → MayWrite name h → AllFine t → AllFine (g tt env t).1)
      → (let m : M B = check_write_perm user name >>= λ r. elim r [ err e ↦ f e | ok u ↦ g u ] in
          AllFine (m env h).1)
  after_check name h f g all on_err on_ok =
      let t = (check_write_perm user name env h).1 in
      let fine = check-AllGranted name h all in
      result-then AllFine env t (check_write_perm user name env h).0 f g (λ e bad. on_err e t fine)
        (λ u good. on_ok t (check-Past name h) (check_passed name h good) fine)

  pub mkdir-AllGranted : (name : String) (h : Trace) → AllFine h → AllFine (mkdir user name env h).1
  unfolding mkdir
  mkdir-AllGranted name h all =
      after_check name h _ _ all (λ e t fine. fine)
        (λ t asked may fine.
          after_mapping true user env name t _ _ fine (λ e t fine. fine)
            (λ p t' past good fine.
              ((write-IsGranted user env name p t h asked past good may, tt), fine)))

  pub remove_all-AllGranted :
      (name : String) (h : Trace) → AllFine h → AllFine (remove_all_dav user name env h).1
  unfolding remove_all_dav
  remove_all-AllGranted name h all =
      after_check name h _ _ all (λ e t fine. fine)
        (λ t asked may fine.
          after_mapping true user env name t _ _ fine (λ e t fine. fine)
            (λ p t' past good fine.
              ((write-IsGranted user env name p t h asked past good may, tt), fine)))

  pub rename-AllGranted :
      (old new : String) (h : Trace) → AllFine h → AllFine (rename_dav user old new env h).1
  unfolding rename_dav
  rename-AllGranted old new h all =
      after_check old h _ _ all (λ e t fine. fine)
        (λ t asked may fine.
          after_check new t _ _ fine (λ e t fine. fine)
            (λ t₁ asked_new may_new fine₁.
              after_mapping true user env old t₁ _ _ fine₁ (λ e t fine. fine)
                (λ p t₂ past good fine₂.
                  after_mapping true user env new t₂ _ _ fine₂ (λ e t fine. fine)
                    (λ q t₃ past_new good_new fine₃. (
                      (
                        write-IsGranted user env old p t₁ h (past_trans asked asked_new)
                            (past_trans past past_new) good may,
                        (
                          write-IsGranted user env new q t₂ t (past_trans asked_new past) past_new
                              good_new may_new,
                          tt,
                        ),
                      ),
                      fine₃,
                    )))))

  stat_failed-AllGranted :
      (name : String) (e : Error) (h : Trace) → AllFine h → AllFine (stat_failed name e env h).1
  unfolding stat_failed
  stat_failed-AllGranted name vfs_root h all = all
  stat_failed-AllGranted name vfs_container_root h all = all
  stat_failed-AllGranted name not_found h all = all
  stat_failed-AllGranted name (other _) h all = all
  stat_failed-AllGranted name (fault _) h all = all
  stat_failed-AllGranted name (wrapped _ _) h all = all
  stat_failed-AllGranted name permission h all = all
  stat_failed-AllGranted name not_exist h all = all
  stat_failed-AllGranted name invalid h all = all
  stat_failed-AllGranted name eof h all = all

  pub stat-AllGranted :
      (name : String) (h : Trace) → AllFine h → AllFine (stat_dav user name env h).1
  unfolding stat_dav
  stat-AllGranted name h all =
      after_mapping true user env name h _ _ all (λ e t fine. stat_failed-AllGranted name e t fine)
        (λ p t past good fine. ((read-IsGranted user env name p h past good, tt), fine))

  pub readdir-AllGranted :
      (f : VirtualDir) (count : ℕ) (h : Trace) → AllFine h → AllFine (readdir f count env h).1
  unfolding readdir list_root list_container
  readdir-AllGranted f count h all =
      let h' : Trace = (config_get, env h config_get) ∷ h in
      let found = env h' (container_inspect f.container_name) in
      if-then AllFine env h f.is_root _ _ (λ root. (tt, all))
        (λ below.
          result-then AllFine env ((container_inspect f.container_name, found) ∷ h') found _ _
            (λ e bad. (tt, (tt, all))) (λ c good. (tt, (tt, all))))

  open_host-AllGranted :
      (p : String) (flag : OpenFlags) (h : Trace)
      → IsGranted user env h (writes flag, p)
      → AllFine h
      → AllFine (open_host p flag env h).1
  unfolding open_host
  open_host-AllGranted p flag h granted all =
      let r = env h (open_file p flag) in
      let fine : AllFine ((open_file p flag, r) ∷ h) = ((granted, tt), all) in
      result-then AllFine env ((open_file p flag, r) ∷ h) r _ _ (λ e bad. fine) (λ u good. fine)

  pub open-AllGranted :
      (name : String) (flag : OpenFlags) (h : Trace)
      → AllFine h
      → AllFine (open_dav_file user name flag env h).1
  unfolding open_dav_file
  open-AllGranted name flag h all = elim (Bool-cases (writes flag)) [
    | inl w ↦ rw w (
        after_check name h _ _ all (λ e t fine. fine)
          (λ t asked may fine.
            after_mapping true user env name t _ _ fine (λ e t fine. fine)
              (λ p t₁ past good fine₁.
                open_host-AllGranted p flag t₁
                  (subst (λ b. IsGranted user env t₁ (b, p)) (sym w)
                    (write-IsGranted user env name p t h asked past good may))
                  fine₁)))
    | inr r ↦ rw r (
        after_mapping true user env name h _ _ all (λ e t fine. fine)
          (λ p t past good fine.
            open_host-AllGranted p flag t
              (subst (λ b. IsGranted user env t (b, p)) (sym r)
                (read-IsGranted user env name p h past good))
              fine))
  ]
