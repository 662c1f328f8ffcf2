-- ===== src/Api/Auth.antt =====
-- internal/api/auth.go: `Login` and the middleware `Auth`.
pub mod Laws
use Prim.Native.String
use play_bin.Base.{String, Option, none, some, List, ◌==◌, if◌then◌else◌}
use play_bin.Base.Dict.{Dict, lookup, insert, get_or}
use play_bin.Config.{no_user}
use play_bin.Config.Permission.{has_permission, container_read}
use play_bin.World.{Inspect, Result, ok, err, M, pure, call, ◌>>=◌, config_get, container_inspect}

-- The parts of a request that the handlers read: the header `Authorization`, and the parameters of
-- the query. An absent one is the empty text, as in Go.
pub record Request : Type 0 where
  pub authorization : String
  pub token : String
  pub id : String
  pub generation : String
  pub tail : String
  pub mode : String

pub data Reply : Type 0 where
  -- a status with a text, by `http.Error`
  failure : String → String → Reply
  -- 200 with no body
  success : Reply
  -- 200 with `{"token": …}`
  token_reply : String → Reply

abbrev pub Sessions : Type 0
Sessions = Dict String

-- What the header gives, or else the query.
unfoldable pub token_of : Request → String
token_of r = if r.authorization == "" then r.token else r.authorization

-- `Login`: `creds` is what the body decodes to, and `random` is the hex text of the 16 bytes that
-- `rand.Read` gives, `none` where they fail.
unfoldable pub login : Option (String × String) → Option String → Sessions → M (Reply × Sessions)
login none random sessions = pure (failure "400" "Invalid request format", sessions)
login (some (username, password)) random sessions = do
  cfg ← call config_get
  elim (lookup username cfg.users) [
    | none ↦ pure (failure "401" "Unauthorized", sessions)
    | some user ↦
        if user.password == password
        then elim random [
          | none ↦ pure (failure "500" "Internal Server Error", sessions)
          | some token ↦ pure (token_reply token, insert token username sessions)
        ]
        else pure (failure "401" "Unauthorized", sessions)
  ]

-- `s[1:]`; the texts that the program slices so begin with a slash.
abbrev pub drop_first : String → String
drop_first String.[] = ""
drop_first (String.◌∷◌ c s) = s

-- The name of the container that a request means, by its name or its id.
unfoldable pub real_name : Result Inspect → String → String
real_name (ok i) id = drop_first i.name
real_name (err _) id = id

-- `Auth`: `none` where the next handler is called.
unfoldable pub auth : Request → Sessions → M (Option Reply)
auth r sessions = elim (lookup (token_of r) sessions) [
  | none ↦ pure (some (failure "401" "Authentication required"))
  | some username ↦ if r.id == "" then pure none else do
    cfg ← call config_get
    found ← call (container_inspect r.id)
    if has_permission (get_or username no_user cfg.users) (real_name found r.id) container_read
        then pure none
        else pure (some (failure "403" "Operation not allowed for this container"))
]
