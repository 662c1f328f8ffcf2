-- ===== src/Webdav/Server/Laws.antt =====
-- internal/webdav/server.go: for whom the WebDAV library is called.
use play_bin.Base.{
  String, none, some, Option, ◌∷◌, ◌==◌, ◌≡◌, ◌⊎◌, refl, inl, inr, eq_iff, Bool-cases, Option-cases,
}
use play_bin.Base.Dict.{lookup}
use play_bin.Config.{UserConfig}
use play_bin.World.{Trace, Env, M, config_get}
use play_bin.Webdav.{authorize}
use play_bin.Webdav.Server.{unauthorized, stripped, handler}

-- The header carries a user's name with the password that the configuration has now.
pub record IsKnown (basic : Option (String × String)) (env : Env) (h : Trace) (name : String)
    : Type 0 where
  pub user : UserConfig
  pub pass : String
  pub given : basic ≡ some (name, pass)
  pub found : lookup name (env h config_get).users ≡ some user
  pub matches : user.password ≡ pass

-- A request under `/dav/` is answered 401, with no call but the one that reads the configuration, or
-- its header carries a user's name with the password of the configuration, and it is then what the
-- library makes of the path that is left, for that user.
pub handler_guarded :
    {A : Type 0} (library : String → String → M A) (basic : Option (String × String))
    (path : String) (env : Env) (h : Trace)
    → (handler library basic path env h ≡ (unauthorized, (config_get, env h config_get) ∷ h))
      ⊎ ((name : String) × IsKnown basic env h name
          × (handler library basic path env h
              ≡ stripped library name path env ((config_get, env h config_get) ∷ h)))
unfolding handler authorize lookup
handler_guarded library none path env h = inl refl
handler_guarded library (some (name, pass)) path env h =
    elim (Option-cases (lookup name (env h config_get).users)) [
      | inl unknown ↦ inl (rw unknown refl)
      | inr (u, known) ↦ elim (Bool-cases (u.password == pass)) [
        | inr wrong ↦ inl (rw (known, wrong) refl)
        | inl right ↦ inr (
          name,
          record {
            user = u;
            pass = pass;
            given = refl;
            found = known;
            matches = (eq_iff u.password pass).0 right;
          },
          rw (known, right) refl,
        )
      ]
    ]
