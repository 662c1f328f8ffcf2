-- ===== src/Tests/Forward.antt =====
-- internal/discord/forwarder.go and the statistics of internal/api/handlers_ws.go: instances.

use play_bin.Base.{
  ◌≤◌, true, some, [], ◌∷◌, ◌==◌, ◌<>◌, leb, length, if◌then◌else◌, ◌≡◌, ◌≢◌, refl, arith,
}
use play_bin.Json.{text, object, field, no_fields}
use play_bin.World.{
  Rule, ok, err, eof, Error, Trace, Env, ctx_done, scan_line, log_rules, decode_stats, ws_write,
}
use play_bin.Discord.Placeholders.{placeholder, replace_text, replace_groups, replace_placeholders}
use play_bin.Discord.Placeholders.Laws.{replace_text-group}
use play_bin.Discord.Tail.{
  Library, searching, returned, forward_line, forward_rule, execute_webhook, post_all, tail_rounds,
}
use play_bin.Discord.Tail.Laws.{posts, onto, all_messages, forward_line-posts}
use play_bin.Discord.Tail.Orderly.{IsOrderly, tail_rounds-IsOrderly}
use play_bin.Discord.Tail.Ends.{tail_rounds-ends}
use play_bin.Api.Auth.{Request, Sessions}
use play_bin.Api.Stats.{stats, unfinished}
use play_bin.Api.Stats.Laws.{AllReports, stats-AllReports}
use play_bin.Api.Stats.Ends.{stats-ends}
use play_bin.Text.Decimal.{decimal}
use play_bin.Text.{replace_all}
use play_bin.Tests.Sample.{sample}

-- Expressions that match the line that they stand for, and capture `ann`.
abbrev library : Library
library = record {
  match_string = λ re line. re == line;
  find_submatch = λ re line. line ∷ "ann" ∷ [];
  new_request = λ url. true;
}

abbrev joined : Rule
joined = record {
  webhook = object (field "content" (text "$1 joined ${server}") no_fields) ∷ [];
  res = "left" ∷ "joined" ∷ [];
}

-- A log with the line `joined`, until the context is cancelled.
abbrev server_log : Env
server_log h scan_line = some "joined"
server_log h (log_rules _) = joined ∷ []
server_log h ctx_done = leb 9 (length h)
server_log h c = sample h c

server_log-done : (t : Trace) → 9 ≤ length t → server_log t ctx_done ≡ true
server_log-done t late = ground (arith, late)

-- Statistics that end, on a WebSocket that takes every message.
abbrev statistics : Env
statistics h decode_stats =
    if leb 8 (length h) then err eof else ok (field "name" (text "mc") no_fields)
statistics h (ws_write _) = ok tt
statistics h c = sample h c

statistics-over : (t : Trace) → 8 ≤ length t → (e : Error) × (statistics t decode_stats ≡ err e)
statistics-over t late = (eof, ground (arith, late))

abbrev opened : Sessions
opened = ("t1", "op") ∷ []

abbrev request : Request
request = record {
  authorization = "t1";
  token = "";
  id = "mc";
  generation = "";
  tail = "";
  mode = "";
}

forward_tests :
    (replace_text ("a $2 b" ∷ "$2" ∷ "c" ∷ []) "mc" "${server}: $1$10" ≡ "mc: cc0")
    × (posts (forward_line library "https://hook" "mc" "joined" (joined ∷ []) sample []).1
        ≡ ("https://hook", object (field "content" (text "ann joined mc") no_fields)) ∷ [])
unfolding replace_text replace_groups replace_all decimal forward_line forward_rule post_all
    execute_webhook replace_placeholders
forward_tests = (refl, refl)

replace_text-group_example :
    replace_text ("line" ∷ "ann" ∷ "rest" ∷ []) "mc" ("<" <> placeholder 1 <> "0>") ≡ "<ann0>"
replace_text-group_example =
    replace_text-group ("line" ∷ []) ("rest" ∷ []) "ann" "mc" "<" "0>" (omega arith)
      (omega arith, tt) (omega arith, (omega arith, (omega arith, tt)))
      (omega arith, (omega arith, tt))

forward_line-posts_example :
    posts (forward_line library "https://hook" "mc" "joined" (joined ∷ joined ∷ []) server_log []).1
    ≡ onto (all_messages library "https://hook" "mc" "joined" (joined ∷ joined ∷ [])) []
forward_line-posts_example =
    forward_line-posts library "https://hook" "mc" "joined" (joined ∷ joined ∷ []) server_log []

tail_rounds-IsOrderly_example :
    IsOrderly
      (tail_rounds library "https://hook" "mc" "log.json" 20 searching server_log []).0
      (tail_rounds library "https://hook" "mc" "log.json" 20 searching server_log []).1
tail_rounds-IsOrderly_example =
    tail_rounds-IsOrderly library "https://hook" "mc" "log.json" 20 searching server_log []
      (record { is_quiet = refl; ends = refl; balanced = refl; released = refl })

tail_rounds-ends_example :
    (tail_rounds library "https://hook" "mc" "log.json" 11 searching server_log []).0 ≡ returned
tail_rounds-ends_example =
    tail_rounds-ends library "https://hook" "mc" "log.json" server_log 9 server_log-done 9 searching
      [] (omega arith)

stats-AllReports_example : AllReports (stats 5 request opened statistics []).1
stats-AllReports_example = stats-AllReports 5 request opened statistics [] tt

stats-ends_example : (stats 9 request opened statistics []).0 ≢ unfinished
stats-ends_example = stats-ends statistics 8 statistics-over request opened []
