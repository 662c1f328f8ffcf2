-- ===== src/Api/AccessLog.antt =====
-- internal/api/middleware.go: `WithLogging` and the writer that it wraps around the response.
use play_bin.Base.{
  ℕ, String, Bool, true, false, Option, none, some, List, [], ◌∷◌, ◌++◌, ◌<>◌, ◌≡◌, refl, ap, sym,
  ◌∙◌, All, length,
}
use mathlib.Core.List.{append-nil, append_assoc}
use play_bin.Text.Decimal.{decimal}
use play_bin.World.{Result, Outcome, invalid, err}
use play_bin.Logger.{log_line, internal_error}

-- What a handler does to its `http.ResponseWriter`; a body is written without its text.
pub data Write : Type 0 where
  write_header : ℕ → Write
  write_body : Write

-- `loggingResponseWriter`, with what the writer that it wraps was told, in order.
pub record LoggingWriter : Type 0 where
  pub status_code : ℕ
  pub passed : List Write

-- `WriteHeader`, and the `Write` that the wrapped writer brings with it.
unfoldable pub perform : Write → LoggingWriter → LoggingWriter
perform (write_header code) w = record {
  status_code = code;
  passed = w.passed ++ write_header code ∷ [];
}
perform write_body w = record w { passed = w.passed ++ write_body ∷ [] }

unfoldable pub perform_all : List Write → LoggingWriter → LoggingWriter
perform_all [] w = w
perform_all (x ∷ xs) w = perform_all xs (perform x w)

-- `Hijack`: what the wrapped writer answers if it is a hijacker; `none` where it is none, with what
-- is printed then.
unfoldable pub hijack : String → Option (Result (Unit {0})) → Result (Unit {0}) × List String
hijack timestamp (some answer) = (answer, [])
hijack timestamp none =
    let (line, e) =
      internal_error timestamp "API" "ResponseWriter does not implement http.Hijacker" in
    (err e, line ∷ [])

-- `wsBinaryWriter.Write`: what `WriteMessage` answers for the bytes; `none` is a writer without a
-- connection. The number of bytes is that of all of them also where they could not be sent.
unfoldable pub ws_binary_write : Option Outcome → List ℕ → ℕ × Outcome
ws_binary_write none bytes = (0, err invalid)
ws_binary_write (some sent) bytes = (length bytes, sent)

-- The line of the access log, for a status; the elapsed time is the text that `%v` prints.
abbrev pub logged : String → String → String → String → String → ℕ → String
logged timestamp method request_uri remote_addr elapsed status =
    log_line timestamp "Internal" "Access" (
      method <> " " <> request_uri <> " " <> remote_addr <> " " <> decimal status <> " " <> elapsed)

-- `WithLogging`: the handler is what it writes.
unfoldable pub with_logging :
    List Write → String → String → String → String → String → LoggingWriter × String
with_logging writes timestamp method request_uri remote_addr elapsed =
    let w = perform_all writes (record { status_code = 200; passed = [] }) in
    (w, logged timestamp method request_uri remote_addr elapsed w.status_code)

-- The status that the client gets, as net/http documents it: that of the first `WriteHeader`, but 200
-- where nothing or a body comes first.
abbrev pub sent_status : List Write → ℕ
sent_status [] = 200
sent_status (write_header code ∷ ws) = code
sent_status (write_body ∷ ws) = 200

abbrev pub is_body : Write → Bool
is_body write_body = true
is_body (write_header _) = false

-- The status is set once at most, and before any body.
abbrev pub SetsFirst : List Write → Type 0
SetsFirst [] = Unit
SetsFirst (x ∷ xs) = All (λ y. is_body y ≡ true) xs

bodies-status :
    (ws : List Write) (w : LoggingWriter)
    → All (λ y. is_body y ≡ true) ws
    → (perform_all ws w).status_code ≡ w.status_code
unfolding perform_all perform
bodies-status [] w all = refl
bodies-status (write_header code ∷ ws) w (wrong, all) = cc
bodies-status (write_body ∷ ws) w (body, all) = bodies-status ws (perform write_body w) all

passed-step :
    (x : Write) (ws : List Write) (w : LoggingWriter)
    → (perform x w).passed ++ ws ≡ w.passed ++ x ∷ ws
unfolding perform
passed-step (write_header code) ws w = append_assoc w.passed (write_header code ∷ []) ws
passed-step write_body ws w = append_assoc w.passed (write_body ∷ []) ws

passed-all : (ws : List Write) (w : LoggingWriter) → (perform_all ws w).passed ≡ w.passed ++ ws
unfolding perform_all perform
passed-all [] w = sym (append-nil w.passed)
passed-all (x ∷ ws) w = passed-all ws (perform x w) ∙ passed-step x ws w

-- The wrapped writer is told all that the handler writes, in its order, and the line of the access
-- log holds the status that the client gets, if the handler sets it once at most and before any body.
pub with_logging-status :
    (ws : List Write) (timestamp method uri addr elapsed : String)
    → SetsFirst ws
    → ((with_logging ws timestamp method uri addr elapsed).0.passed ≡ ws)
      × ((with_logging ws timestamp method uri addr elapsed).1
          ≡ logged timestamp method uri addr elapsed (sent_status ws))
unfolding with_logging perform_all perform
with_logging-status [] timestamp method uri addr elapsed first = (refl, refl)
with_logging-status (write_header code ∷ ws) timestamp method uri addr elapsed first =
    let w : LoggingWriter = record { status_code = code; passed = write_header code ∷ [] } in
    (passed-all ws w, ap (logged timestamp method uri addr elapsed) (bodies-status ws w first))
with_logging-status (write_body ∷ ws) timestamp method uri addr elapsed first =
    let w : LoggingWriter = record { status_code = 200; passed = write_body ∷ [] } in
    (passed-all ws w, ap (logged timestamp method uri addr elapsed) (bodies-status ws w first))
