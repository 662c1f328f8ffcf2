-- ===== src/Sftp/Connections.antt =====
-- internal/sftp/server.go: the host key, the start of the server, and what becomes of a connection.
pub mod Laws
use play_bin.Base.{
  ℕ, String, Bool, true, false, ◌&&◌, Option, none, some, List, [], ◌∷◌, ◌==◌, eqb, ltb, length,
  drop, if◌then◌else◌,
}
use play_bin.World.{
  Error, not_exist, wrapped, Result, ok, err, Outcome, M, pure, call, ◌>>=◌, ◌>>◌, config_get, stat,
  keygen, read_file, parse_key, listen,
}
use play_bin.Sftp.{authenticate}

abbrev pub key_path : String
key_path = "sftp_host_key"

-- `errors.Is(err, os.ErrNotExist)`, which looks through wrapped errors.
unfoldable pub is_not_exist : Error → Bool
is_not_exist not_exist = true
is_not_exist (wrapped _ e) = is_not_exist e
is_not_exist _ = false

abbrev pub is_missing : Outcome → Bool
is_missing (ok _) = false
is_missing (err e) = is_not_exist e

-- `generateHostKey`, which only logs a failure.
unfoldable pub generate_host_key : String → M (Unit {0})
generate_host_key path = do call (keygen path); pure tt

-- The host key of `NewServer`, if there is one.
unfoldable pub load_key : M (Option String)
load_key = do
  text ← call (read_file key_path)
  elim text [
    | err _ ↦ pure none
    | ok bytes ↦ do
      key ← call (parse_key bytes)
      elim key [ err _ ↦ pure none | ok private ↦ pure (some private) ]
  ]

-- `NewServer`: the host key of the configuration that it makes.
unfoldable pub new_server : M (Option String)
new_server = do
  found ← call (stat key_path)
  if is_missing found then generate_host_key key_path >> load_key else load_key

-- `Start`, up to the loop that accepts connections: whether it is entered.
unfoldable pub start : M Bool
start = do
  cfg ← call config_get
  if cfg.sftp_listen == "" then pure false else do
    opened ← call (listen cfg.sftp_listen)
    elim opened [ err _ ↦ pure false | ok _ ↦ pure true ]

-- `ssh.Request`, with its payload in bytes.
pub record SshRequest : Type 0 where
  pub kind : String
  pub payload : List ℕ

abbrev pub same_bytes : List ℕ → List ℕ → Bool
same_bytes [] [] = true
same_bytes (x ∷ xs) (y ∷ ys) = let rest = same_bytes xs ys in eqb x y && rest
same_bytes _ _ = false

-- The reply to a request; `none` where taking `Payload[4:]` panics.
unfoldable pub reply_request : SshRequest → Option Bool
reply_request r =
    if r.kind == "subsystem"
    then if ltb (length r.payload) 4
      then none
      else some (same_bytes (drop 4 r.payload) (b's' ∷ b'f' ∷ b't' ∷ b'p' ∷ []))
    else some false

-- The goroutine of a channel: its replies, and whether it panics, which ends the process.
unfoldable pub reply_all : List SshRequest → List Bool × Bool
reply_all [] = ([], false)
reply_all (r ∷ rs) =
    let (replies, panics) = reply_all rs in
    elim (reply_request r) [ none ↦ ([], true) | some b ↦ (b ∷ replies, panics) ]

-- A channel that a client asks for: its type, and whether it can be accepted.
pub record NewChannel : Type 0 where
  pub kind : String
  pub accepted : Bool

-- What becomes of a channel; a session is served the files of a user.
pub data Fate : Type 0 where
  rejected skipped : Fate
  served : String → Fate

unfoldable pub channel_fate : String → NewChannel → Fate
channel_fate user c =
    if c.kind == "session" then if c.accepted then served user else skipped else rejected

unfoldable pub channel_fates : String → List NewChannel → List Fate
channel_fates user [] = []
channel_fates user (c ∷ cs) = channel_fate user c ∷ channel_fates user cs

-- `handleConn`, for the name and the password of the handshake.
unfoldable pub handle_conn : String → String → List NewChannel → M (List Fate)
handle_conn user pass chans = do
  login ← authenticate user pass
  elim login [ err _ ↦ pure [] | ok name ↦ pure (channel_fates name chans) ]

-- A connection with the name and the password of its handshake, and the channels that it asks for.
pub record Connection : Type 0 where
  pub user : String
  pub pass : String
  pub chans : List NewChannel

-- The loop of `Start`, for what `Accept` gives: a failure is passed over. Each connection has a
-- goroutine of its own; here they run in the order in which they came.
unfoldable pub accept_all : List (Result Connection) → M (List (List Fate))
accept_all [] = pure []
accept_all (err _ ∷ rest) = accept_all rest
accept_all (ok c ∷ rest) = do
  fates ← handle_conn c.user c.pass c.chans
  later ← accept_all rest
  pure (fates ∷ later)

-- `Start`, with the connections that it accepts.
unfoldable pub start_accepting : List (Result Connection) → M (List (List Fate))
start_accepting incoming = do entered ← start; if entered then accept_all incoming else pure []
