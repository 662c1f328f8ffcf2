-- ===== src/Tests/Connecting.antt =====
-- internal/sftp/server.go, internal/api/middleware.go and internal/logger/logger.go: instances.
use play_bin.Base.{true, false, some, List, [], ◌∷◌, ◌≡◌, refl, All}
use play_bin.Base.Dict.{lookup}
use play_bin.World.{Result, ok, eof, Env, not_exist, err, stat}
use play_bin.Logger.{log_line}
use play_bin.Sftp.{authenticate}
use play_bin.Sftp.Connections.{
  SshRequest, NewChannel, served, rejected, skipped, new_server, load_key, generate_host_key,
  is_not_exist, reply_all, reply_request, channel_fates, channel_fate, handle_conn, Connection,
  accept_all, start, start_accepting,
}
use play_bin.Sftp.Connections.Laws.{
  IsServed, start_accepting-IsServed, reply_all-panics, any_short, keys_made,
}
use play_bin.Tests.Sample.{sample}

abbrev channels : List NewChannel
channels =
    record { kind = "x11"; accepted = true }
    ∷ record { kind = "session"; accepted = true }
    ∷ record { kind = "session"; accepted = false }
    ∷ []

abbrev requests : List SshRequest
requests =
    record { kind = "env"; payload = [] }
    ∷ record { kind = "subsystem"; payload = 0 ∷ 0 ∷ 0 ∷ 4 ∷ b's' ∷ b'f' ∷ b't' ∷ b'p' ∷ [] }
    ∷ record { kind = "subsystem"; payload = 1 ∷ [] }
    ∷ []

-- A host without a key
abbrev keyless : Env
keyless h (stat _) = err not_exist
keyless h c = sample h c

connecting_tests :
    ((handle_conn "op" "pw" channels sample []).0 ≡ rejected ∷ served "op" ∷ skipped ∷ [])
    × ((handle_conn "op" "no" channels sample []).0 ≡ [])
    × (reply_all requests ≡ (false ∷ true ∷ [], true))
    × (keys_made (new_server keyless []).1 ≡ 1)
    × ((new_server sample []).0 ≡ some "key")
    × (log_line "2024" "Client" "SFTP" "no" ≡ "[2024] [Client] [SFTP]: no\n")
unfolding handle_conn authenticate lookup channel_fates channel_fate reply_all reply_request
    new_server load_key generate_host_key is_not_exist log_line
connecting_tests = (refl, refl, refl, refl, refl, refl)

-- A connection with the right password, one that failed, and one with a wrong password.
abbrev incoming : List (Result Connection)
incoming =
    ok (record { user = "op"; pass = "pw"; chans = channels })
    ∷ err eof
    ∷ ok (record { user = "op"; pass = "no"; chans = channels })
    ∷ []

accepting_tests :
    (start_accepting incoming sample []).0 ≡ (rejected ∷ served "op" ∷ skipped ∷ []) ∷ [] ∷ []
unfolding start_accepting start accept_all handle_conn authenticate lookup channel_fates
    channel_fate
accepting_tests = refl

start_accepting-IsServed_example :
    All
      (IsServed incoming sample (start_accepting incoming sample []).1)
      (start_accepting incoming sample []).0
start_accepting-IsServed_example = start_accepting-IsServed incoming sample []

reply_all-panics_example : (reply_all requests).1 ≡ any_short requests
reply_all-panics_example = reply_all-panics requests
