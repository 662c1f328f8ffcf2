-- ===== src/Api/Auth/Laws.antt =====
-- internal/api/auth.go: where a session comes from, and whom the middleware lets through.
use play_bin.Base.{
  String, true, Option, none, some, List, [], ◌∷◌, ◌==◌, ◌≡◌, ◌↔◌, ◌⊎◌, inl, inr, arith, eq_iff,
  Bool-cases, Option-cases,
}
use play_bin.Base.Dict.{lookup, insert, lookup-insert, get_or}
use play_bin.Config.{UserConfig, no_user}
use play_bin.Config.Permission.{has_permission, container_read}
use play_bin.World.{Trace, Env, config_get, container_inspect}
use play_bin.Api.Auth.{Request, Reply, Sessions, token_of, login, real_name, auth}

-- One login: what the body decodes to, the random text, and the surroundings.
pub record Attempt : Type 0 where
  pub creds : Option (String × String)
  pub random : Option String
  pub env : Env
  pub before : Trace

-- The attempt carries the user's name with the password that the configuration has at that time,
-- and draws the token.
pub record IsAccepted (a : Attempt) (token name : String) : Type 0 where
  pub user : UserConfig
  pub pass : String
  pub given : a.creds ≡ some (name, pass)
  pub known : lookup name (a.env a.before config_get).users ≡ some user
  pub matches : user.password ≡ pass
  pub drawn : a.random ≡ some token

abbrev pub attempt : Attempt → Sessions → Sessions
attempt a s = (login a.creds a.random s a.env a.before).0.1

insert_cases :
    (t token name username : String) (s : Sessions)
    → lookup t (insert token username s) ≡ some name
    → (lookup t s ≡ some name) ⊎ ((token ≡ t) × (username ≡ name))
insert_cases t token name username s e =
    ground (arith, lookup-insert token t username s, eq_iff token t)

login_step :
    (a : Attempt) (s : Sessions) (t name : String)
    → lookup t (attempt a s) ≡ some name
    → (lookup t s ≡ some name) ⊎ IsAccepted a t name
unfolding login
login_step a s t name e = elim (Option-cases a.creds) [
  | inl p ↦ inl (ground arith)
  | inr ((username, pass), p) ↦
      elim (Option-cases (lookup username (a.env a.before config_get).users)) [
        | inl q ↦ inl (ground arith)
        | inr (user, q) ↦ elim (Bool-cases (user.password == pass)) [
          | inr differs ↦ inl (ground arith)
          | inl same ↦ elim (Option-cases a.random) [
            | inl failed ↦ inl (ground arith)
            | inr (token, drawn) ↦ elim (insert_cases t token name username s (ground arith)) [
              | inl old ↦ inl old
              | inr (token_eq, name_eq) ↦ inr (record {
                user = user;
                pass = pass;
                given = rw (← name_eq) p;
                known = rw (← name_eq) q;
                matches = (eq_iff user.password pass).0 same;
                drawn = rw (← token_eq) drawn;
              })
            ]
          ]
        ]
      ]
]

-- The sessions after some logins, from an empty map.
pub data Reachable : List Attempt → Sessions → Type 0 where
  started : Reachable [] []
  logged_in :
      {past : List Attempt} {s : Sessions} (a : Attempt)
      → Reachable past s
      → Reachable (a ∷ past) (attempt a s)

-- Some attempt of the list was accepted.
abbrev pub SomeAccepted : List Attempt → String → String → Type 0
SomeAccepted [] token name = ⊥
SomeAccepted (a ∷ past) token name = IsAccepted a token name ⊎ SomeAccepted past token name

-- Every session belongs to a login that was accepted: whatever logins came before, a token stands
-- for a user only if some login gave that user's name with the right password and drew the token.
pub sessions_genuine :
    {past : List Attempt} {s : Sessions} (token name : String)
    → Reachable past s
    → lookup token s ≡ some name
    → SomeAccepted past token name
sessions_genuine token name started e = absurd (unfold lookup in cc e)
sessions_genuine token name (logged_in {s = s} a r) e = elim (login_step a s token name e) [
  | inl old ↦ inr (sessions_genuine token name r old)
  | inr new ↦ inl new
]

-- The middleware calls the next handler exactly when the token has a session, and the request names
-- no container or the session's user may read the container that the engine knows by that name or
-- id.
pub auth_iff :
    (r : Request) (s : Sessions) (env : Env) (h : Trace)
    → ((auth r s env h).0 ≡ none) ↔ (
        (username : String) × (lookup (token_of r) s ≡ some username)
        × ((r.id ≡ "")
            ⊎ (has_permission
                  (get_or username no_user (env h config_get).users)
                  (real_name
                    (env ((config_get, env h config_get) ∷ h) (container_inspect r.id))
                    r.id)
                  container_read
                ≡ true)))
unfolding auth
auth_iff r s env h = elim (Option-cases (lookup (token_of r) s)) [
  | inl p ↦ (λ e. absurd (ground arith), λ (name, q, _). absurd (ground arith))
  | inr (name, p) ↦ (
    λ e. (name, p, ground (arith, eq_iff r.id "")),
    λ (other, q, c). ground (arith, eq_iff r.id ""),
  )
]

-- Without a session the middleware answers 401, and asks nothing of its surroundings.
pub auth_unknown :
    (r : Request) (s : Sessions) (env : Env) (h : Trace)
    → lookup (token_of r) s ≡ none
    → auth r s env h ≡ (some (Reply.failure "401" "Authentication required"), h)
unfolding auth
auth_unknown r s env h e = rw (e, auth)
