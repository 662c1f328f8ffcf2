-- ===== src/Api/Stats.antt =====
-- internal/api/handlers_ws.go: `StatsHandler`.
pub mod Laws
pub mod Ends
use Prim.Native.Nat.{◌%◌, ◌^◌}
use play_bin.Base.{
  ℕ, zero, suc, ◌+◌, ◌-◌, String, Bool, Option, none, some, List, [], ◌∷◌, not, ◌==◌, if◌then◌else◌,
}
use play_bin.Base.Dict.{get_or}
use play_bin.Config.{no_user}
use play_bin.Config.Permission.{has_permission, container_read}
use play_bin.Json.{scalar, object, Fields, no_fields, field, Json}
use play_bin.Text.Decimal.{decimal}
use play_bin.World.{
  Memory, ok, err, M, pure, call, ◌>>=◌, config_get, container_stats, decode_stats, virtual_memory,
  cpu_percent, ws_upgrade, ws_write,
}
use play_bin.Api.Auth.{Request, Reply, failure, Sessions, token_of}

-- What becomes of the request: a reply without a WebSocket; no WebSocket or no statistics; the end of
-- the loop; a panic; the rounds are used up.
pub data Ending : Type 0 where
  refused : Reply → Ending
  dropped finished panicked unfinished : Ending

-- The assignment to a key of a map
unfoldable pub set_field : String → Json → Fields → Fields
set_field k v no_fields = field k v no_fields
set_field k v (field k' v' fs) =
    let rest = set_field k v fs in if k' == k then field k v fs else field k' v' rest

-- `v.Total - v.Available`, in uint64
abbrev pub memory_used : Memory → ℕ
memory_used v = (v.total + 2 ^ 64 - v.available) % 2 ^ 64

abbrev pub first_percent : List String → String
first_percent [] = "0"
first_percent (c ∷ cs) = c

abbrev pub os_stats : Memory → List String → Json
os_stats v c = object (
    field "memory_used_percent" (scalar v.used_percent) (
      field "memory_total" (scalar (decimal v.total)) (
        field "memory_used" (scalar (decimal (memory_used v)))
          (field "cpu_percent" (scalar (first_percent c)) no_fields))))

-- The end of a round, for the statistics that were decoded, the memory, which is nil where it cannot
-- be read, and the load of the processor; `none` goes on. Reading a field of nil panics.
unfoldable pub send_report : Fields → Option Memory → List String → M (Option Ending)
send_report docker_stats none c = pure (some panicked)
send_report docker_stats (some v) c = do
  sent ← call (ws_write (set_field "os_stats" (os_stats v c) docker_stats))
  elim sent [ err _ ↦ pure (some finished) | ok _ ↦ pure none ]

unfoldable pub send_stats : Fields → M (Option Ending)
send_stats docker_stats = do
  v ← call virtual_memory
  c ← call cpu_percent
  send_report docker_stats v c

unfoldable pub stats_round : M (Option Ending)
stats_round = do
  decoded ← call decode_stats
  elim decoded [ err _ ↦ pure (some finished) | ok docker_stats ↦ send_stats docker_stats ]

-- The loop, for a number of rounds
unfoldable pub stats_rounds : ℕ → M Ending
stats_rounds zero = pure unfinished
stats_rounds (suc n) = do
  ended ← stats_round
  elim ended [ some outcome ↦ pure outcome | none ↦ stats_rounds n ]

-- `StatsHandler`
unfoldable pub stats : ℕ → Request → Sessions → M Ending
stats rounds r sessions = do
  cfg ← call config_get
  if not (
        has_permission (get_or (get_or (token_of r) "" sessions) no_user cfg.users) r.id
          container_read)
      then pure (refused (failure "403" "Read permission required"))
      else do
        upgraded ← call ws_upgrade
        elim upgraded [
          | err _ ↦ pure dropped
          | ok _ ↦ do
            opened ← call (container_stats r.id)
            elim opened [ err _ ↦ pure dropped | ok _ ↦ stats_rounds rounds ]
        ]
