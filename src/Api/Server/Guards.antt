-- ===== src/Api/Server/Guards.antt =====
-- internal/api/server.go: what stands before each path that the server answers.
use play_bin.Base.{
  ℕ, String, false, none, some, List, ◌∷◌, ◌==◌, ◌≡◌, ap, ◌∙◌, inl, inr, arith, eq_iff, Bool-cases,
  Option-cases,
}
use play_bin.Text.{strip_prefix}
use play_bin.World.{Trace, Env, M, config_get}
use play_bin.Api.Auth.{failure, token_of, Sessions}
use play_bin.Api.Auth.Laws.{SomeAccepted}
use play_bin.Api.Routes.{Endpoint, replied, route, serve}
use play_bin.Webdav.Server.{unauthorized, handler, stripped}
use play_bin.Webdav.Server.Laws.{IsKnown, handler_guarded}
use play_bin.Api.Server.{
  Incoming, api_reply, dav_reply, file_reply, serve_any, serve_other, serve_open, serve_rest,
}
use play_bin.Api.Server.Laws.{Turn, logins, sessions_after, served_genuine}

module _ {A B : Type 0} (library : String → String → M A) (files : String → M B) (rounds : ℕ) where
  -- The ways in which a request is answered, after some others.
  pub data Guarded (past : List Turn) (i : Incoming) (env : Env) (h : Trace) : Type 0 where
    -- the login
    at_login : i.path ≡ "/api/login" → Guarded past i env h
    -- a path of the API: 401 without any call, or a token that a login gave
    refused :
        (e : Endpoint)
        → route i.path ≡ some e
        → serve_any library files rounds i (sessions_after library files rounds past) env h ≡ (
          (
            api_reply (replied (failure "401" "Authentication required")),
            sessions_after library files rounds past,
          ),
          h,
        )
        → Guarded past i env h
    in_session :
        (e : Endpoint) (name : String)
        → route i.path ≡ some e
        → SomeAccepted (logins past) (token_of i.request) name
        → Guarded past i env h
    -- a path of WebDAV: 401 with the reading of the configuration, or a password that it has now
    dav_refused :
        serve_any library files rounds i (sessions_after library files rounds past) env h ≡ (
          (dav_reply unauthorized, sessions_after library files rounds past),
          (config_get, env h config_get) ∷ h,
        )
        → Guarded past i env h
    dav_known :
        (rest name : String)
        → strip_prefix "/dav/" i.path ≡ some rest
        → IsKnown i.basic env h name
        → serve_any library files rounds i (sessions_after library files rounds past) env h ≡ (
          (
            dav_reply (stripped library name i.path env ((config_get, env h config_get) ∷ h)).0,
            sessions_after library files rounds past,
          ),
          (stripped library name i.path env ((config_get, env h config_get) ∷ h)).1,
        )
        → Guarded past i env h
    -- any other path: what the file server makes of it, and nothing else
    of_files :
        route i.path ≡ none
        → strip_prefix "/dav/" i.path ≡ none
        → serve_any library files rounds i (sessions_after library files rounds past) env h ≡ (
          (file_reply (files i.path env h).0, sessions_after library files rounds past),
          (files i.path env h).1,
        )
        → Guarded past i env h

  -- A path without a handler of its own.
  serve_any-rest :
      (i : Incoming) (s : Sessions) (env : Env) (h : Trace)
      → i.path == "/api/login" ≡ false
      → route i.path ≡ none
      → serve_any library files rounds i s env h ≡ (
        ((serve_rest library files rounds i env h).0, s),
        (serve_rest library files rounds i env h).1,
      )
  unfolding serve_any serve_other serve_open serve
  serve_any-rest i s env h other missing = ground (arith, other, missing)

  serve_rest-files :
      (i : Incoming) (env : Env) (h : Trace)
      → strip_prefix "/dav/" i.path ≡ none
      → serve_rest library files rounds i env h
        ≡ (file_reply (files i.path env h).0, (files i.path env h).1)
  unfolding serve_rest
  serve_rest-files i env h outside = ground (arith, outside)

  serve_rest-dav :
      (i : Incoming) (rest : String) (env : Env) (h : Trace)
      → strip_prefix "/dav/" i.path ≡ some rest
      → serve_rest library files rounds i env h ≡ (
        dav_reply (handler library i.basic i.path env h).0,
        (handler library i.basic i.path env h).1,
      )
  unfolding serve_rest
  serve_rest-dav i rest env h inside = ground (arith, inside)

  -- Every request, to any path, whatever requests came before from the start of the server on, is one
  -- of these: a login; one to another path of the API or the WebSockets, which is answered 401 without
  -- any call, or whose token was drawn by a login with a user's name and the password that the
  -- configuration had then; one under `/dav/`, which is answered 401 with no call but the one that
  -- reads the configuration, or which carries a user's name with the password that it has now, and is then
  -- handled for that user; and for every other path the answer is the file server's, which asks for
  -- no login.
  pub served_guarded :
      (past : List Turn) (i : Incoming) (env : Env) (h : Trace) → Guarded past i env h
  served_guarded past i env h =
      let s = sessions_after library files rounds past in
      elim (Bool-cases (i.path == "/api/login")) [
        | inl same ↦ at_login ((eq_iff i.path "/api/login").0 same)
        | inr other ↦ elim (Option-cases (route i.path)) [
          | inr (e, found) ↦ elim (served_genuine library files rounds past i e env h found) [
            | inl bad ↦ refused e found bad
            | inr (name, accepted) ↦ in_session e name found accepted
          ]
          | inl missing ↦ elim (Option-cases (strip_prefix "/dav/" i.path)) [
            | inl outside ↦ of_files missing outside (
                serve_any-rest i s env h other missing
                ∙ ap (λ p. ((p.0, s), p.1)) (serve_rest-files i env h outside))
            | inr (rest, inside) ↦ elim (handler_guarded library i.basic i.path env h) [
              | inl bad ↦ dav_refused (
                  serve_any-rest i s env h other missing
                  ∙ ap (λ p. ((p.0, s), p.1)) (serve_rest-dav i rest env h inside)
                  ∙ ap (λ p. ((dav_reply p.0, s), p.1)) bad)
              | inr (name, known, same) ↦ dav_known rest name inside known (
                  serve_any-rest i s env h other missing
                  ∙ ap (λ p. ((p.0, s), p.1)) (serve_rest-dav i rest env h inside)
                  ∙ ap (λ p. ((dav_reply p.0, s), p.1)) same)
            ]
          ]
        ]
      ]
