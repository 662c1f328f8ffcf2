-- ===== src/Discord/Tail.antt =====
-- internal/discord/forwarder.go: `tailContainerLogs`, the goroutine of a forwarder, whose two nested
-- loops are the stages of one: looking for the container, and reading its log. And
-- `executeWebhook`, which sends what it forwards.
pub mod Laws
pub mod Ends
pub mod Orderly
use Prim.Native.Nat.{◌*◌}
use play_bin.Base.{ℕ, zero, suc, String, Bool, none, some, List, [], ◌∷◌, if◌then◌else◌}
use play_bin.Json.{Json}
use play_bin.World.{
  Rule, ok, err, M, pure, call, ◌>>=◌, ◌>>◌, container_inspect, follow_logs, ctx_done, scan_line,
  log_rules, post_webhook, response_close, reader_close, sleep,
}
use play_bin.Discord.Placeholders.{replace_placeholders}

-- What the loop uses of the libraries: regexp's `MatchString` and `FindStringSubmatch`, for the
-- expression and the line, and whether net/http's `NewRequest` takes a URL.
pub record Library : Type 0 where
  pub match_string : String → String → Bool
  pub find_submatch : String → String → List String
  pub new_request : String → Bool

pub data Stage : Type 0 where
  searching reading returned : Stage

-- In nanoseconds, as `time.Second`
abbrev pub seconds : ℕ → ℕ
seconds n = n * 1000000000

module _ (library : Library) (url server : String) where
  -- `executeWebhook`. The payloads come from a JSON file, so that `json.Marshal` takes them.
  unfoldable pub execute_webhook : Json → M (Unit {0})
  execute_webhook body =
      if library.new_request url
      then (do
        sent ← call (post_webhook url body)
        elim sent [ err _ ↦ pure tt | ok _ ↦ do call response_close; pure tt ])
      else pure tt

  -- The payloads of a rule that matched
  unfoldable pub post_all : List String → List Json → M (Unit {0})
  post_all matches [] = pure tt
  post_all matches (raw ∷ raws) = do
    execute_webhook (replace_placeholders matches server raw)
    post_all matches raws

  -- The expressions of a rule, up to the first that matches
  unfoldable pub forward_rule : String → List Json → List String → M (Unit {0})
  forward_rule line webhook [] = pure tt
  forward_rule line webhook (re ∷ res) =
      let rest = forward_rule line webhook res in
      if library.match_string re line
      then post_all (library.find_submatch re line) webhook
      else rest

  unfoldable pub forward_line : String → List Rule → M (Unit {0})
  forward_line line [] = pure tt
  forward_line line (rule ∷ rules) = do
    forward_rule line rule.webhook rule.res
    forward_line line rules

  module _ (path : String) where
    unfoldable pub search : M Stage
    search = do
      found ← call (container_inspect server)
      elim found [
        | err _ ↦ do call (sleep (seconds 30)); pure searching
        | ok _ ↦ do
          logs ← call (follow_logs server "0")
          elim logs [ err _ ↦ do call (sleep (seconds 10)); pure searching | ok _ ↦ pure reading ]
      ]

    unfoldable pub read_line : String → M Stage
    read_line line = do
      done ← call ctx_done
      if done
          then (do call reader_close; pure returned)
          else do rules ← call (log_rules path); forward_line line rules; pure reading

    -- One round of the loop that the stage is in
    unfoldable pub tail_round : Stage → M Stage
    tail_round searching = do done ← call ctx_done; if done then pure returned else search
    tail_round reading = do
      next ← call scan_line
      elim next [
        | none ↦ do call reader_close; call (sleep (seconds 5)); pure searching
        | some line ↦ read_line line
      ]
    tail_round returned = pure returned

    -- `tailContainerLogs`, for a number of rounds
    unfoldable pub tail_rounds : ℕ → Stage → M Stage
    tail_rounds zero stage = pure stage
    tail_rounds (suc n) stage = do later ← tail_round stage; tail_rounds n later
