-- ===== src/Api/Routes/Open.antt =====
-- internal/api: a request that passes the middleware without any permission.
use play_bin.Base.{
  ℕ, String, false, true, Option, none, ◌||◌, some, ◌==◌, ◌≡◌, ap, ◌∙◌, arith, eq_iff,
}
use play_bin.Base.Dict.{lookup, get_or}
use play_bin.World.{Trace, Env, M, pure, ok, container_inspect, ws_upgrade}
use play_bin.Api.Auth.{Request, Sessions, token_of, auth}
use play_bin.Api.Terminal.{linked, tty_of}
use play_bin.Api.Terminal.Laws.{unknown_mode_panics}
use play_bin.Api.Terminal.Link.{Link, output, copies, leaves, step, Reach}
use play_bin.Api.Routes.{
  Handled, replied, terminal_end, terminal_socket, route, serve, with_auth, handle,
}

-- A request that names no container passes the middleware with any session.
auth_nameless :
    (r : Request) (s : Sessions) (username : String) (env : Env) (h : Trace)
    → lookup (token_of r) s ≡ some username
    → r.id ≡ ""
    → auth r s env h ≡ (none, h)
unfolding auth
auth_nameless r s username env h known nameless = ground (arith, known, nameless, eq_iff r.id "")

-- Any session, of a user with no permissions at all, can end the process: a request to `/ws/terminal`
-- that names no container and a mode other than `exec` and `logs` passes the middleware, the
-- WebSocket is opened without a stream, where the upgrade succeeds, and in each state from then on
-- the goroutine that reads the stream can only panic.
pub any_session_panics :
    (rounds : ℕ) (r : Request) (command : Option String) (s : Sessions) (username : String)
    (env : Env) (h : Trace) (l : Link)
    → lookup (token_of r) s ≡ some username
    → (username == "") ≡ false
    → r.id ≡ ""
    → (r.mode == "exec" || r.mode == "logs") ≡ false
    → ((t : Trace) → env t ws_upgrade ≡ ok tt)
    → Reach false l
    → l.crashed ≡ false
    → ((serve rounds "/ws/terminal" r command s env h).0
        ≡ some (terminal_end (linked false (tty_of (env h (container_inspect r.id))))))
      × (step (copies output) l ≡ some (record l { crashed = true }))
      × (step (leaves output) l ≡ some (record l { crashed = true }))
unfolding serve with_auth handle route
any_session_panics rounds r command s username env h l known named nameless other upgrades reached
      running =
    let user : get_or (token_of r) "" s ≡ username = ground (arith, known) in
    let passed : auth r s env h ≡ (none, h) = auth_nameless r s username env h known nameless in
    let (linked_false, first, second) =
      unknown_mode_panics r r.mode r.tail s env h l other (ap (λ u. u == "") user ∙ named) upgrades
        reached running in
    (
      ap
            (λ p.
              let next : M Handled = elim p.0 [
                | none ↦ handle rounds terminal_socket r command s
                | some reply ↦ pure (replied reply)
              ] in
              some (next env p.1).0)
            passed
          ∙ ap (λ t. some (terminal_end t)) linked_false,
      first,
      second,
    )
