-- ===== src/Api/Server/Holders.antt =====
-- internal/api/auth.go and server.go: which sessions there are after any requests.
use play_bin.Base.{
  ℕ, String, Option, none, some, List, [], ◌∷◌, ◌==◌, if◌then◌else◌, ◌≡◌, refl, ◌∙◌, ap, inl, inr,
  arith, Bool-cases, Option-cases,
}
use play_bin.Base.Dict.{lookup, lookup-insert}
use play_bin.Config.{Config}
use play_bin.World.{Trace, Env, M, config_get}
use play_bin.Api.Auth.{Sessions, login}
use play_bin.Api.Auth.Laws.{Attempt}
use play_bin.Api.Server.Laws.{Turn, logins, sessions_after, sessions-step}

-- The token that a login gives, and to whom: it carries a user's name with the password of the
-- configuration, and its random text can be drawn.
abbrev grant : Option (String × String) → Option String → Config → Option (String × String)
grant none random cfg = none
grant (some (username, pass)) random cfg = elim (lookup username cfg.users) [
  | none ↦ none
  | some user ↦
      if user.password == pass
      then elim random [ none ↦ none | some token ↦ some (token, username) ]
      else none
]

abbrev granted_to : String → Option (String × String) → Option String → Option String
granted_to token none before = before
granted_to token (some (t, name)) before = if t == token then some name else before

-- Who holds a token: the user of the latest login that gave it.
abbrev pub holder : String → List Attempt → Option String
holder token [] = none
holder token (a ∷ past) =
    granted_to token (grant a.creds a.random (a.env a.before config_get)) (holder token past)

lookup-login :
    (token : String) (creds : Option (String × String)) (random : Option String) (s : Sessions)
    (env : Env) (h : Trace)
    → lookup token (login creds random s env h).0.1
      ≡ granted_to token (grant creds random (env h config_get)) (lookup token s)
unfolding login
lookup-login token none random s env h = refl
lookup-login token (some (username, pass)) random s env h =
    elim (Option-cases (lookup username (env h config_get).users)) [
      | inl q ↦ ground (arith, q)
      | inr (user, q) ↦ elim (Bool-cases (user.password == pass)) [
        | inr differs ↦ ground (arith, q, differs)
        | inl same ↦ elim (Option-cases random) [
          | inl failed ↦ ground (arith, q, same, failed)
          | inr (t, drawn) ↦ ground (arith, q, same, drawn, lookup-insert t token username s)
        ]
      ]
    ]

-- After any requests, to any paths, from the start of the server on: a token has a session exactly if
-- some request to the login gave it, which carried a user's name with the password that the
-- configuration had at that time, and the session is the one of the user of the latest such login.
pub sessions_after-holder :
    {A B : Type 0} (library : String → String → M A) (files : String → M B) (rounds : ℕ)
    (past : List Turn) (token : String)
    → lookup token (sessions_after library files rounds past) ≡ holder token (logins past)
unfolding lookup
sessions_after-holder library files rounds [] token = refl
sessions_after-holder library files rounds (t ∷ past) token =
    let s = sessions_after library files rounds past in
    let step = sessions-step library files rounds t s in
    let earlier = sessions_after-holder library files rounds past token in
    elim (Bool-cases (t.incoming.path == "/api/login")) [
      | inl same ↦
          rw (step, same)
            (lookup-login token t.incoming.creds t.incoming.random s t.env t.before
              ∙ ap
                  (granted_to token
                    (grant t.incoming.creds t.incoming.random (t.env t.before config_get)))
                  earlier)
      | inr other ↦ rw (step, other) earlier
    ]
