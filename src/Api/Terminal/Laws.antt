-- ===== src/Api/Terminal/Laws.antt =====
-- internal/api/handlers_ws.go: who gets a shell, and what an unknown mode leads to.
use play_bin.Base.{
  ℕ, suc, String, Bool, true, false, ◌||◌, ◌==◌, some, [], ◌∷◌, if◌then◌else◌, ◌≡◌, arith,
}
use play_bin.Base.Dict.{get_or}
use play_bin.Config.{UserConfig, no_user}
use play_bin.Config.Permission.{has_permission, container_write}
use play_bin.World.{Event, Trace, Env, ok, config_get, container_inspect, shell_create, ws_upgrade}
use play_bin.Api.Auth.{Request, Sessions, token_of}
use play_bin.Api.Terminal.{
  linked, terminal, open_stream, open_shell, open_logs, connect, upgrade, tty_of,
}
use play_bin.Api.Terminal.Link.{Link, output, copies, leaves, step, Reach}
use play_bin.Api.Terminal.Link.Safety.{Reach-copying}

-- The number of shells that were asked for.
abbrev pub is_shell : Event → Bool
is_shell (shell_create _, r) = true
is_shell _ = false

abbrev pub shells : Trace → ℕ
shells [] = 0
shells (e ∷ h) = if is_shell e then suc (shells h) else shells h

-- The user of the session, in the configuration that the handler reads.
abbrev pub session_user : Request → Sessions → Env → Trace → UserConfig
session_user r sessions env h =
    let h' : Trace = (container_inspect r.id, env h (container_inspect r.id)) ∷ h in
    get_or (get_or (token_of r) "" sessions) no_user (env h' config_get).users

-- Without `container.write` on the container as it was named, no mode opens a shell.
pub terminal-shells :
    (r : Request) (mode tail : String) (sessions : Sessions) (env : Env) (h : Trace)
    → has_permission (session_user r sessions env h) r.id container_write ≡ false
    → shells (terminal r mode tail sessions env h).1 ≡ shells h
unfolding terminal open_stream open_shell open_logs connect upgrade
terminal-shells r mode tail sessions env h denied = ground arith

panics :
    {l : Link}
    → Reach false l
    → l.crashed ≡ false
    → (step (copies output) l ≡ some (record l { crashed = true }))
      × (step (leaves output) l ≡ some (record l { crashed = true }))
unfolding step
panics {l} r running = let c = Reach-copying r in ground arith

-- With a session, any mode other than `exec` and `logs` leads to a WebSocket without a stream where
-- the upgrade succeeds, without any permission on the container; and in each state from then on the
-- goroutine that reads the stream can only panic, which ends the process.
pub unknown_mode_panics :
    (r : Request) (mode tail : String) (sessions : Sessions) (env : Env) (h : Trace) (l : Link)
    → (mode == "exec" || mode == "logs") ≡ false
    → (get_or (token_of r) "" sessions == "") ≡ false
    → ((t : Trace) → env t ws_upgrade ≡ ok tt)
    → Reach false l
    → l.crashed ≡ false
    → ((terminal r mode tail sessions env h).0
        ≡ linked false (tty_of (env h (container_inspect r.id))))
      × (step (copies output) l ≡ some (record l { crashed = true }))
      × (step (leaves output) l ≡ some (record l { crashed = true }))
unfolding terminal open_stream connect upgrade
unknown_mode_panics r mode tail sessions env h l other known upgrades reached running =
    let next : Trace = (container_inspect r.id, env h (container_inspect r.id)) ∷ h in
    let u = upgrades ((config_get, env next config_get) ∷ next) in
    let (first, second) = panics reached running in (ground arith, first, second)
