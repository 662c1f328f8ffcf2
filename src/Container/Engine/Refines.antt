-- ===== src/Container/Engine/Refines.antt =====
-- internal/container/container.go: the actions of the manager against the abstract life cycle.
use play_bin.Base.{
  String, true, false, ◌==◌, none, some, ◌∷◌, ◌≡◌, ◌⊎◌, refl, arith, eq_iff, inl, inr, Option-cases,
  ◌∙◌, subst,
}
use play_bin.Base.Dict.{lookup}
use play_bin.Config.{ComposeConfig}
use play_bin.World.{
  Error, err, is_not_found, Trace, Env, config_get, container_inspect, container_stop,
}
use play_bin.World.Laws.{Result-cases}
use play_bin.Container.{
  Action, start_action, stop_action, kill_action, backup_action, restore_action, remove_action,
  unknown_action, execute_action,
}
use play_bin.Container.Lifecycle.{
  create_and_start, start_compose, start, stop_steps, commands_of, stop, kill, remove,
}
use play_bin.Container.Archive.{failed}
use play_bin.Container.Engine.{
  Status, absent, stopped, running, status, Shows, IsEngine, has_image, same, allowed,
}
use play_bin.Container.Engine.Quiet.{stop_steps-status, backup-status}

Status-cases : (s : Status) → (s ≡ absent) ⊎ (s ≡ stopped) ⊎ (s ≡ running)
Status-cases absent = inl refl
Status-cases stopped = inr (inl refl)
Status-cases running = inr (inr refl)

same_refl : (s : Status) → same s s ≡ true
same_refl absent = refl
same_refl stopped = refl
same_refl running = refl

-- The states before and after an action, and whether it failed, as the abstract life cycle allows.
abbrev Conforms : String → Action → Status → Env → Trace → Type 0
Conforms name action initial env h =
    allowed action (has_image (lookup name (env h config_get).servers)) (status name initial h)
      (failed (execute_action name action env h).0)
      (status name initial (execute_action name action env h).1)
    ≡ true

module _ (name : String) (initial : Status) (env : Env) (engine : IsEngine name initial env) where
  self : (name == name) ≡ true
  self = (eq_iff name name).1 refl

  shown :
      (s : Status) (h : Trace)
      → status name initial h ≡ s
      → Shows s (env h (container_inspect name))
  shown s h e = subst (λ t. Shows t (env h (container_inspect name))) e (engine.shows h)

  -- An inspection says that there is no container only where there is none.
  found :
      (h : Trace) (e : Error)
      → env h (container_inspect name) ≡ err e
      → is_not_found e ≡ true
      → status name initial h ≡ absent
  found h e r gone = elim (Status-cases (status name initial h)) [
    | inl none_left ↦ none_left
    | inr (inl off) ↦
        let bad : is_not_found e ≡ false = subst (Shows stopped) r (shown stopped h off) in
        absurd (ground (arith, bad, gone))
    | inr (inr on) ↦
        let bad : is_not_found e ≡ false = subst (Shows running) r (shown running h on) in
        absurd (ground (arith, bad, gone))
  ]

  remove-Conforms : (h : Trace) → Conforms name remove_action initial env h
  unfolding execute_action remove
  remove-Conforms h = elim (Result-cases (env h (container_inspect name))) [
    | inl (i, r) ↦ ground (arith, self, same_refl (status name initial h))
    | inr (e, r) ↦ ground (arith, self, r, found h e r, same_refl (status name initial h))
  ]

  kill-Conforms : (h : Trace) → Conforms name kill_action initial env h
  unfolding execute_action kill
  kill-Conforms h =
      let stop_result = env h (container_stop name (some 30)) in
      let h' : Trace = (container_stop name (some 30), stop_result) ∷ h in
      elim (Status-cases (status name initial h)) [
        | inl gone ↦ elim (Result-cases stop_result) [
          | inl (u, p) ↦ absurd (ground (arith, engine.stop_absent h gone (some 30)))
          | inr (e, p) ↦
              let still : status name initial h' ≡ absent = ground arith in
              let refused = engine.kill_absent h' still "SIGKILL" in ground (arith, self)
        ]
        | inr (inl off) ↦ ground (arith, self)
        | inr (inr on) ↦ ground (arith, self)
      ]

  stop-Conforms : (h : Trace) → Conforms name stop_action initial env h
  unfolding execute_action stop lookup
  stop-Conforms h =
      let h₁ : Trace = (config_get, env h config_get) ∷ h in
      elim (Option-cases (lookup name (env h config_get).servers)) [
        | inl p ↦ elim (Status-cases (status name initial h)) [
          | inl gone ↦ let refused = engine.stop_absent h₁ gone none in ground (arith, self)
          | inr (inl off) ↦ ground (arith, self)
          | inr (inr on) ↦ ground (arith, self)
        ]
        | inr (server, p) ↦
            let cmds = commands_of server.commands.stop in
            let h₂ : Trace = (stop_steps name cmds env h₁).1 in
            let kept : status name initial h₂ ≡ status name initial h =
              stop_steps-status name initial name cmds env h₁ in
            elim (Status-cases (status name initial h)) [
              | inl gone ↦
                  let refused = engine.stop_absent h₂ (kept ∙ gone) none in ground (arith, self)
              | inr (inl off) ↦ ground (arith, self)
              | inr (inr on) ↦ ground (arith, self)
            ]
      ]

  start_compose-allowed :
      (compose : ComposeConfig) (h : Trace)
      → allowed start_action true
          (status name initial h)
          (failed (start_compose name compose env h).0)
          (status name initial (start_compose name compose env h).1)
        ≡ true
  unfolding start_compose create_and_start
  start_compose-allowed compose h = elim (Result-cases (env h (container_inspect name))) [
    | inl (i, r) ↦ elim (Status-cases (status name initial h)) [
      | inl gone ↦ let (e, failing) = shown absent h gone in absurd (ground (arith, r, failing))
      | inr (inl off) ↦ ground (arith, self, r)
      | inr (inr on) ↦ ground (arith, self, r)
    ]
    | inr (e, r) ↦ elim (Status-cases (status name initial h)) [
      | inl gone ↦ ground (arith, self, r)
      | inr (inl off) ↦ ground (arith, self, r, found h e r)
      | inr (inr on) ↦ ground (arith, self, r, found h e r)
    ]
  ]

  start-Conforms : (h : Trace) → Conforms name start_action initial env h
  unfolding execute_action start lookup
  start-Conforms h =
      let h₁ : Trace = (config_get, env h config_get) ∷ h in
      let same_status = same_refl (status name initial h) in
      elim (Option-cases (lookup name (env h config_get).servers)) [
        | inl p ↦ ground arith
        | inr (server, p) ↦ elim (Option-cases server.compose) [
          | inl q ↦ ground arith
          | inr (compose, q) ↦ ground (arith, start_compose-allowed compose h₁)
        ]
      ]

  Conforms-core : (action : Action) (h : Trace) → Conforms name action initial env h
  unfolding execute_action
  Conforms-core start_action h = start-Conforms h
  Conforms-core stop_action h = stop-Conforms h
  Conforms-core kill_action h = kill-Conforms h
  Conforms-core backup_action h =
      rw (backup-status name initial name env h) (same_refl (status name initial h))
  Conforms-core restore_action h = same_refl (status name initial h)
  Conforms-core remove_action h = remove-Conforms h
  Conforms-core (unknown_action t) h = same_refl (status name initial h)

-- The manager refines the abstract life cycle, whose state is what the engine was told last of the
-- container: with an engine that has no other client, finds the container if and only if there is
-- one, or fails to answer, and refuses to stop or kill one that is absent, each action leads from
-- the container's state to one that the life cycle allows for that action and outcome, whatever else
-- the engine and the host answer, and also if the container exits or is restarted by its policy in
-- between. So a start that succeeds leaves the container started if an image is configured, a removal
-- that succeeds leaves none, a backup neither stops nor starts the container, and a failure leaves
-- the state, but for a start that fails after the creation.
pub execute_action_refines :
    (name : String) (action : Action) (initial : Status) (env : Env) (h : Trace)
    → IsEngine name initial env
    → allowed action
        (has_image (lookup name (env h config_get).servers))
        (status name initial h)
        (failed (execute_action name action env h).0)
        (status name initial (execute_action name action env h).1)
      ≡ true
execute_action_refines name action initial env h engine =
    Conforms-core name initial env engine action h
