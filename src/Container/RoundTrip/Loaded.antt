-- ===== src/Container/RoundTrip/Loaded.antt =====
-- internal/container/container.go: what `Restore` does to the directories, and that it undoes all
-- changes since a backup.
use play_bin.Base.{
  String, Bool, false, ◌||◌, Option, none, some, List, [], ◌∷◌, ◌<>◌, ◌≡◌, refl, sym, ap, subst,
  ◌∙◌, arith, All, inl, inr, Option-cases, eq_iff,
}
use play_bin.Base.Dict.{lookup}
use play_bin.Text.Paths.{join_path}
use play_bin.Config.{CmdConfig, ServerConfig}
use play_bin.World.{Trace, Env, ok, stat, config_get, local_time, container_inspect}
use play_bin.Container.Archive.{backup_paths, backup, restore_step, restore_steps, restore}
use play_bin.Container.RoundTrip.Moves.{Store, moves, Separate, moves-All}
use play_bin.Container.RoundTrip.{IsMirror, after, pair_of, pairs, with_pair, saves, loads}
use play_bin.Container.RoundTrip.Saved.{backup-after}

module _ {ℓ} {D : Type ℓ} (effect : List String → D → D → D) (mirror : IsMirror effect)
    (s : Store D) where
  abbrev step_loads : String → Option (String × String) → List (String × String)
  step_loads generation p = loads generation (with_pair p [])

  step_loads-pairs :
      (generation : String) (p : Option (String × String)) (ps : List (String × String))
      (st : Store D)
      → moves (loads generation ps) (moves (step_loads generation p) st)
        ≡ moves (loads generation (with_pair p ps)) st
  step_loads-pairs generation none ps st = refl
  step_loads-pairs generation (some (src, dest)) ps st = refl

  restore_step-after :
      (generation : String) (cmd : CmdConfig) (env : Env) (h : Trace)
      → ((t : Trace) (p : String) → env t (stat p) ≡ ok tt)
      → (restore_step generation cmd env h).0 ≡ false
      → after effect s (restore_step generation cmd env h).1
        ≡ moves (step_loads generation (pair_of cmd)) (after effect s h)
  unfolding restore_step
  restore_step-after generation cmd env h found fine = elim (Option-cases (backup_paths cmd.arg)) [
    | inl p ↦ rw p (ground arith)
    | inr ((src, dest), p) ↦ rw p (
        ground (
          arith,
          fine,
          found h (join_path dest generation),
          eq_iff cmd.kind "backup",
          mirror.plain (after effect s h (join_path dest generation <> "/"))
              (after effect s h (src <> "/")),
        ))
  ]

  restore_steps-error :
      (generation : String) (cmds : List CmdConfig) (error : Bool) (env : Env) (h : Trace)
      → (restore_steps generation cmds error env h).0 ≡ false
      → error ≡ false
  unfolding restore_steps
  restore_steps-error generation [] error env h fine = fine
  restore_steps-error generation (cmd ∷ cmds) error env h fine =
      let (e, h') = restore_step generation cmd env h in
      ground (arith, restore_steps-error generation cmds (error || e) env h' fine)

  restore_steps-after :
      (generation : String) (cmds : List CmdConfig) (error : Bool) (env : Env) (h : Trace)
      → ((t : Trace) (p : String) → env t (stat p) ≡ ok tt)
      → (restore_steps generation cmds error env h).0 ≡ false
      → after effect s (restore_steps generation cmds error env h).1
        ≡ moves (loads generation (pairs cmds)) (after effect s h)
  unfolding restore_steps
  restore_steps-after generation [] error env h found fine = refl
  restore_steps-after generation (cmd ∷ cmds) error env h found fine =
      let (e, h') = restore_step generation cmd env h in
      let later = restore_steps-after generation cmds (error || e) env h' found fine in
      let all_fine = restore_steps-error generation cmds (error || e) env h' fine in
      let here = restore_step-after generation cmd env h found (ground (arith, all_fine)) in
      later
      ∙ ap (moves (loads generation (pairs cmds))) here
      ∙ step_loads-pairs generation (pair_of cmd) (pairs cmds) (after effect s h)

  -- What a restore that returns no error does to the store.
  restore-after :
      (name generation : String) (env : Env) (server : ServerConfig)
      → lookup name (env [] config_get).servers ≡ some server
      → ((t : Trace) (p : String) → env t (stat p) ≡ ok tt)
      → (restore name generation env []).0 ≡ ok tt
      → after effect s (restore name generation env []).1
        ≡ moves (loads generation (pairs server.commands.backup)) s
  unfolding restore
  restore-after name generation env server known found fine =
      let h1 : Trace = (config_get, env [] config_get) ∷ [] in
      let h2 : Trace = (container_inspect name, env h1 (container_inspect name)) ∷ h1 in
      let steps = restore_steps-after generation server.commands.backup false env h2 found in
      ground (arith, known, fine, steps)

-- The copies of a backup and of a restore, pair by pair.
chain {ℓ} :
    {D : Type ℓ} (generation : String) (ps : List (String × String)) (s s' saved restored : Store D)
    → All (λ p. join_path p.1 generation ≡ p.1 <> "/" <> generation) ps
    → All (λ m. saved m.1 ≡ s m.0) (saves generation ps)
    → All (λ m. restored m.1 ≡ s' m.0) (loads generation ps)
    → All
        (λ p. s' ((p.1 <> "/" <> generation) <> "/") ≡ saved ((p.1 <> "/" <> generation) <> "/"))
        ps
    → All (λ p. restored (p.0 <> "/") ≡ s (p.0 <> "/")) ps
chain generation [] s s' saved restored joined backed_up put_back kept = tt
chain generation (p ∷ ps) s s' saved restored (j, joined) (b, backed_up) (r, put_back) (k, kept) = (
  r ∙ ap (λ d. s' (d <> "/")) j ∙ k ∙ b,
  chain generation ps s s' saved restored joined backed_up put_back kept,
)

-- A backup that returns no error, and later a restore of its generation that returns none, with the
-- same configuration of the server: each configured directory has the content again that it had before
-- the backup, whatever it was changed to in between. This is with an rsync that mirrors, under the
-- options that the program passes, any contents of the directories, so for contents of which those
-- that differ have a file that differs in size or time; if the copies of the generation were not
-- changed and the restore finds them, the backup directories are named by clean paths, and no
-- directory that the backup or the restore writes is, contains or lies in one that the same copy or
-- a later one reads or that a later one writes.
pub restore-backup {ℓ} :
    {D : Type ℓ} (effect : List String → D → D → D) (name generation : String) (env env' : Env)
    (s s' : Store D) (server : ServerConfig)
    → IsMirror effect
    → lookup name (env [] config_get).servers ≡ some server
    → lookup name (env' [] config_get).servers ≡ some server
    → env ((config_get, env [] config_get) ∷ []) local_time ≡ generation
    → All (λ p. join_path p.1 generation ≡ p.1 <> "/" <> generation) (pairs server.commands.backup)
    → Separate (saves generation (pairs server.commands.backup))
    → Separate (loads generation (pairs server.commands.backup))
    → ((t : Trace) (p : String) → env' t (stat p) ≡ ok tt)
    → (backup name env []).0 ≡ ok tt
    → (restore name generation env' []).0 ≡ ok tt
    → All
        (λ p.
          s' ((p.1 <> "/" <> generation) <> "/")
          ≡ after effect s (backup name env []).1 ((p.1 <> "/" <> generation) <> "/"))
        (pairs server.commands.backup)
    → All
        (λ p. after effect s' (restore name generation env' []).1 (p.0 <> "/") ≡ s (p.0 <> "/"))
        (pairs server.commands.backup)
restore-backup effect name generation env env' s s' server mirror known known' stamp simple apart
      apart' found fine fine' kept =
    let ps = pairs server.commands.backup in
    let saved =
      backup-after effect mirror s name env server known fine
      ∙ ap (λ g. moves (saves g ps) s) stamp in
    let restored = restore-after effect mirror s' name generation env' server known' found fine' in
    chain generation ps s s' (after effect s (backup name env []).1)
      (after effect s' (restore name generation env' []).1) simple
      (subst (λ st. All (λ m. st m.1 ≡ s m.0) (saves generation ps)) (sym saved)
        (moves-All (saves generation ps) s apart))
      (subst (λ st. All (λ m. st m.1 ≡ s' m.0) (loads generation ps)) (sym restored)
        (moves-All (loads generation ps) s' apart'))
      kept
