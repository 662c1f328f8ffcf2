-- ===== src/Sftp/Session.antt =====
-- internal/sftp/server.go: a connection as a whole. What the SFTP library does for the user of a
-- channel is a script: it calls the handlers, in any order, and goes on by what they answer.
pub mod Laws
use play_bin.Base.{String, List}
use play_bin.World.{FileInfo, Result, ok, err, Outcome, M, pure, ◌>>=◌}
use play_bin.Sftp.{authenticate, file_list, file_read_request, file_write_request, Method, file_cmd}

-- The handlers of `sftp.Handlers`, which `handleConn` gives to the library.
pub data Script : Type 0 where
  finished : Script
  filelist : String → (Result (List FileInfo) → Script) → Script
  fileread : String → (Outcome → Script) → Script
  filewrite : String → (Outcome → Script) → Script
  filecmd : Method → String → String → (Outcome → Script) → Script

-- The script with the handlers of a user.
unfoldable pub run_script : String → Script → M (Unit {0})
run_script user finished = pure tt
run_script user (filelist path k) = do r ← file_list user path; run_script user (k r)
run_script user (fileread path k) = do r ← file_read_request user path; run_script user (k r)
run_script user (filewrite path k) = do r ← file_write_request user path; run_script user (k r)
run_script user (filecmd method path target k) = do
  r ← file_cmd user method path target
  run_script user (k r)

-- `handleConn` to the end of the connection, for the name and the password of its handshake and what
-- the library does on its channels.
unfoldable pub serve_connection : String → String → Script → M (Unit {0})
serve_connection user pass script = do
  login ← authenticate user pass
  elim login [ err _ ↦ pure tt | ok name ↦ run_script name script ]
