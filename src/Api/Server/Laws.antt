-- ===== src/Api/Server/Laws.antt =====
-- internal/api/server.go: the sessions over all requests, and whom they let through.
use play_bin.Base.{
  ℕ, String, false, some, List, [], ◌∷◌, ◌==◌, if◌then◌else◌, ◌≡◌, ◌⊎◌, subst, inl, inr, arith,
  eq_iff, Bool-cases, Option-cases,
}
use play_bin.Base.Dict.{lookup}
use play_bin.World.{Trace, Env, M}
use play_bin.Api.Auth.{failure, Sessions, token_of}
use play_bin.Api.Auth.Laws.{
  Attempt, attempt, Reachable, started, logged_in, SomeAccepted, sessions_genuine,
}
use play_bin.Api.Routes.{Endpoint, replied, route, serve_unknown}
use play_bin.Api.Server.{
  Incoming, api_reply, no_sessions, serve_any, serve_login, serve_other, serve_open,
}

-- A request with the surroundings of its handling.
pub record Turn : Type 0 where
  pub incoming : Incoming
  pub env : Env
  pub before : Trace

abbrev pub attempt_of : Turn → Attempt
attempt_of t = record {
  creds = t.incoming.creds;
  random = t.incoming.random;
  env = t.env;
  before = t.before;
}

-- The requests to the login among these.
abbrev pub logins : List Turn → List Attempt
logins [] = []
logins (t ∷ past) =
    let rest = logins past in if t.incoming.path == "/api/login" then attempt_of t ∷ rest else rest

route_not_login :
    (path : String) (e : Endpoint) → route path ≡ some e → path == "/api/login" ≡ false
unfolding route
route_not_login path e p = elim (Bool-cases (path == "/api/login")) [
  | inr other ↦ other
  | inl same ↦
      let login_route : route "/api/login" ≡ some e =
        subst (λ x. route x ≡ some e) ((eq_iff path "/api/login").0 same) p in
      absurd (cc login_route)
]

module _ {A B : Type 0} (library : String → String → M A) (files : String → M B) (rounds : ℕ) where
  -- The sessions after some requests, the latest first, from the start of the server.
  abbrev pub sessions_after : List Turn → Sessions
  sessions_after [] = no_sessions
  sessions_after (t ∷ past) =
      (serve_any library files rounds t.incoming (sessions_after past) t.env t.before).0.1

  pub sessions-step :
      (t : Turn) (s : Sessions)
      → (serve_any library files rounds t.incoming s t.env t.before).0.1
        ≡ (if t.incoming.path == "/api/login" then attempt (attempt_of t) s else s)
  unfolding serve_any serve_login serve_other
  sessions-step t s = ground arith

  sessions-Reachable : (past : List Turn) → Reachable (logins past) (sessions_after past)
  sessions-Reachable [] = started
  sessions-Reachable (t ∷ past) =
      let step = sessions-step t (sessions_after past) in
      elim (Bool-cases (t.incoming.path == "/api/login")) [
        | inl same ↦ rw (step, same) (logged_in (attempt_of t) (sessions-Reachable past))
        | inr other ↦ rw (step, other) (sessions-Reachable past)
      ]

  -- Whatever requests came before, to any path, from the start of the server on: one to a path of the
  -- API or of the WebSockets other than the login is answered 401 without any call, or its token was
  -- drawn by a request to the login that carried a user's name with the password that the
  -- configuration had at that time.
  pub served_genuine :
      (past : List Turn) (i : Incoming) (e : Endpoint) (env : Env) (h : Trace)
      → route i.path ≡ some e
      → (serve_any library files rounds i (sessions_after past) env h ≡ (
        (api_reply (replied (failure "401" "Authentication required")), sessions_after past),
        h,
      ))
        ⊎ ((name : String) × SomeAccepted (logins past) (token_of i.request) name)
  unfolding serve_any serve_other serve_open
  served_genuine past i e env h found =
      let s = sessions_after past in
      elim (Option-cases (lookup (token_of i.request) s)) [
        | inr (name, known) ↦
            inr (name, sessions_genuine (token_of i.request) name (sessions-Reachable past) known)
        | inl unknown ↦ inl (
            ground (
              arith,
              route_not_login i.path e found,
              serve_unknown rounds i.path e i.request i.command s env h found unknown,
            ))
      ]
