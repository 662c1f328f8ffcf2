-- ===== src/Tests/Sockets.antt =====
-- internal/api/handlers_ws.go: concrete runs and instances.
use play_bin.Base.{◌≤◌, String, true, false, not, ◌||◌, ◌&&◌, none, some, List, [], ◌∷◌, ◌≡◌, refl}
use play_bin.Base.Dict.{lookup}
use play_bin.Config.Permission.{has_permission}
use play_bin.Api.Auth.{Request, Sessions, token_of}
use play_bin.Api.Terminal.{linked, terminal, open_stream, open_shell, open_logs, connect, upgrade}
use play_bin.Api.Routes.{serve, terminal_end}
use play_bin.Api.Routes.Open.{any_session_panics}
use play_bin.Api.Terminal.Link.{
  busy, finished, Link, Move, fails, copying, at_socket, ended, returned, copies, leaves, cleans,
  handles, output, input, step, fresh, Reach, start, next,
}
use play_bin.Api.Terminal.Link.Safety.{has_returned, has_ended, Reach-IsReleased}
use play_bin.Api.Terminal.Link.Ends.{run, is_own, closing_moves, run-ends}
use play_bin.Tests.Sample.{sample}

computed : Unit {0}
unfolding lookup has_permission token_of terminal open_stream open_shell open_logs connect upgrade
    step run
computed = tt

abbrev request : String → Request
request id = record {
  authorization = "00ff";
  token = "";
  id = id;
  generation = "";
  tail = "";
  mode = "";
}

abbrev sessions : Sessions
sessions = ("00ff", "op") ∷ []

terminal_tests :
    ((terminal (request "mc") "exec" "" sessions sample []).0 ≡ linked true true)
    × ((terminal (request "web") "logs" "" sessions sample []).0 ≡ linked true false)
    × ((terminal (request "web") "" "" sessions sample []).0 ≡ linked false false)
unfolding computed
terminal_tests = (refl, refl, refl)

-- A user without permissions, who names no container
abbrev nameless : Request
nameless = record {
  authorization = "11";
  token = "";
  id = "";
  generation = "";
  tail = "";
  mode = "top";
}

any_session_panics_example :
    ((serve 5 "/ws/terminal" nameless none (("11", "guest") ∷ []) sample []).0
      ≡ some (terminal_end (linked false false)))
    × (step (copies output) (fresh false) ≡ some (record (fresh false) { crashed = true }))
    × (step (leaves output) (fresh false) ≡ some (record (fresh false) { crashed = true }))
unfolding computed
any_session_panics_example =
    any_session_panics 5 nameless none (("11", "guest") ∷ []) "guest" sample [] (fresh false) refl
      refl refl refl (λ t. refl) start refl

abbrev gone : Link
gone = record {
  has_stream = true;
  stream_open = false;
  socket_open = false;
  stream_over = false;
  client_gone = true;
  done = true;
  once = busy;
  output_pump = copying;
  input_pump = at_socket;
  handler = returned;
  crashed = false;
}

reached : Reach true gone
unfolding computed
reached =
    next handles
      (next handles
        (next (cleans input)
          (next handles
            (next (cleans input)
              (next (cleans input) (next (leaves input) (next (fails input) start refl) refl) refl)
              refl)
            refl)
          refl)
        refl)
      refl

Reach-IsReleased_example :
    (gone.crashed ≡ false)
    × ((has_returned gone.handler || has_ended gone.output_pump || has_ended gone.input_pump)
          && (gone.socket_open || gone.stream_open || not gone.done)
        ≡ false)
Reach-IsReleased_example = Reach-IsReleased reached

-- The client goes; the output is still waiting for data when the stream is closed.
abbrev schedule : List Move
schedule =
    copies input
    ∷ fails input
    ∷ leaves input
    ∷ cleans input
    ∷ cleans input
    ∷ handles
    ∷ cleans input
    ∷ leaves output
    ∷ cleans input
    ∷ cleans output
    ∷ handles
    ∷ handles
    ∷ []

abbrev over : Link
over = record gone { once = finished; output_pump = ended; input_pump = ended }

over-stuck : (move : Move) → is_own move ≡ true → step move over ≡ none
unfolding computed
over-stuck (fails _) own = cc
over-stuck (copies _) own = cc
over-stuck (leaves output) own = refl
over-stuck (leaves input) own = refl
over-stuck (cleans output) own = refl
over-stuck (cleans input) own = refl
over-stuck handles own = refl

run-ends_example :
    (over.handler ≡ returned)
    × (over.output_pump ≡ ended)
    × (over.input_pump ≡ ended)
    × (closing_moves schedule ≤ 13)
unfolding computed
run-ends_example = run-ends schedule over refl refl over-stuck
