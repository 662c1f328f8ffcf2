-- ===== src/Docker.antt =====
-- internal/docker/docker.go: the client, a command to a container's stdin, a process run inside it, and
-- the stream of a container's log.
use play_bin.Base.{ℕ, String, List, eqb, length, ◌<>◌, if◌then◌else◌}
use play_bin.Text.Decimal.{decimal}
use play_bin.World.{
  other, wrapped, Result, ok, err, Outcome, M, pure, call, docker_client, ◌>>=◌, ◌>>◌,
  container_attach, conn_write, exec_create, exec_attach, exec_drain, exec_inspect,
}

-- `Init`: what making the client comes to.
unfoldable pub init : M Outcome
init = call docker_client

-- `io.ReadCloser`, for bytes, and `io.ReadWriteCloser`; a read is for a number of bytes at most, and a
-- write answers how many it took.
pub record ReadCloser : Type 0 where
  pub read : ℕ → M (Result (List ℕ))
  pub close : M Outcome

pub record ReadWriteCloser : Type 0 where
  pub read : ℕ → M (Result (List ℕ))
  pub write : List ℕ → M (Result ℕ)
  pub close : M Outcome

-- `ReadNullWriteCloser`: what is written goes to `io.Discard`, which takes all of it.
unfoldable pub read_null_write_closer : ReadCloser → ReadWriteCloser
read_null_write_closer r = record {
  read = r.read;
  write = λ bytes. pure (ok (length bytes));
  close = r.close;
}

-- `SendCommand`
unfoldable pub send_command : String → String → M Outcome
send_command id command = do
  r ← call (container_attach id)
  elim r [ err e ↦ pure (err e) | ok _ ↦ call (conn_write id command) ]

-- What `SendExec` returns for the exit status.
exec_status : Result ℕ → Outcome
exec_status (err e) = err e
exec_status (ok code) =
    if eqb code 0
    then ok tt
    else err (wrapped ("command exited with code " <> decimal code) (other "non-zero exit code"))

-- The rest of `SendExec`, for the job that was created.
run_exec : String → M Outcome
unfolding exec_status
run_exec job = do
  r ← call (exec_attach job)
  elim r [
    | err e ↦ pure (err e)
    | ok _ ↦ do call (exec_drain job); status ← call (exec_inspect job); pure (exec_status status)
  ]

-- `SendExec`
unfoldable pub send_exec : String → List String → M Outcome
unfolding run_exec
send_exec id cmd = do
  r ← call (exec_create id cmd)
  elim r [ err e ↦ pure (err e) | ok job ↦ run_exec job ]
