-- ===== src/Api/Terminal/Link.antt =====
-- internal/api/handlers_ws.go: the goroutines of `TerminalHandler` once the WebSocket stands. Each
-- goroutine and the handler take their steps in any order; a `Move` says whose step it is.
pub mod Safety
pub mod Ends
use play_bin.Base.{Bool, true, false, not, ◌||◌, Option, none, some, if◌then◌else◌, ◌≡◌}

-- How far a copying goroutine is: it copies; its deferred `cleanup` is at `once.Do`; inside, it is
-- about to close `done`, the stream, the WebSocket; it has ended.
pub data Pump : Type 0 where
  copying leaving at_done at_stream at_socket ended : Pump

-- `sync.Once`: not called, called and not returned, returned.
pub data Once : Type 0 where
  idle busy finished : Once

-- The handler: it waits for `done`; its deferred calls close the WebSocket and then the stream; it
-- has returned.
pub data Handler : Type 0 where
  waiting closing_socket closing_stream returned : Handler

-- Docker to WebSocket, and WebSocket to Docker.
pub data Side : Type 0 where
  output input : Side

pub record Link : Type 0 where
  -- whether `stream` is not nil
  pub has_stream : Bool
  pub stream_open : Bool
  pub socket_open : Bool
  -- the container's side of the stream has ended; the client has gone
  pub stream_over : Bool
  pub client_gone : Bool
  pub done : Bool
  pub once : Once
  pub output_pump : Pump
  pub input_pump : Pump
  pub handler : Handler
  -- a goroutine has panicked, which ends the process
  pub crashed : Bool

pub data Move : Type 0 where
  -- the source of the goroutine ends or fails by itself
  fails : Side → Move
  -- the goroutine copies a piece or a message
  copies : Side → Move
  -- it finds that its source is closed or has ended
  leaves : Side → Move
  -- the next step of its `cleanup`
  cleans : Side → Move
  handles : Move

abbrev pub pump : Side → Link → Pump
pump output l = l.output_pump
pump input l = l.input_pump

abbrev pub with_pump : Side → Pump → Link → Link
with_pump output p l = record l { output_pump = p }
with_pump input p l = record l { input_pump = p }

fail : Side → Link → Option Link
fail output l = some (record l { stream_over = true })
fail input l = some (record l { client_gone = true })

-- A method call on the nil stream panics. The output ends at a piece that the WebSocket does not take;
-- whether the stream takes a message of the input is ignored.
copy : Side → Pump → Link → Option Link
copy output copying l =
    if not l.has_stream
    then some (record l { crashed = true })
    else if l.socket_open
    then some l
    else some (with_pump output leaving l)
copy input copying l = if l.has_stream then some l else some (record l { crashed = true })
copy side _ l = none

-- The output's source is the stream, whose first read panics if it is nil; the input's source is
-- the WebSocket. A read ends when its source is closed, also if it was waiting for data.
leave : Side → Pump → Link → Option Link
leave output copying l =
    if not l.has_stream
    then some (record l { crashed = true })
    else if l.stream_over || not l.stream_open
    then some (with_pump output leaving l)
    else none
leave input copying l =
    if l.client_gone || not l.socket_open then some (with_pump input leaving l) else none
leave side _ l = none

-- `once.Do` runs its function in the first call, and lets the others wait for its end.
enter : Side → Once → Link → Option Link
enter side idle l = some (with_pump side at_done (record l { once = busy }))
enter side busy l = none
enter side finished l = some (with_pump side ended l)

-- The second close of a channel panics; the second close of the others returns an error.
clean : Side → Pump → Link → Option Link
unfolding enter
clean side copying l = none
clean side leaving l = enter side l.once l
clean side at_done l =
    if l.done
    then some (record l { crashed = true })
    else some (with_pump side at_stream (record l { done = true }))
clean side at_stream l = some (with_pump side at_socket (record l { stream_open = false }))
clean side at_socket l =
    some (with_pump side ended (record l { socket_open = false; once = finished }))
clean side ended l = none

handle : Handler → Link → Option Link
handle waiting l = if l.done then some (record l { handler = closing_socket }) else none
handle closing_socket l = some (record l { handler = closing_stream; socket_open = false })
handle closing_stream l = some (record l { handler = returned; stream_open = false })
handle returned l = none

-- The step of a move, if it is possible.
unfoldable pub step : Move → Link → Option Link
unfolding fail copy leave clean handle
step move l = if l.crashed then none else elim move [
  | fails side ↦ fail side l
  | copies side ↦ copy side (pump side l) l
  | leaves side ↦ leave side (pump side l) l
  | cleans side ↦ clean side (pump side l) l
  | handles ↦ handle l.handler l
]

abbrev pub fresh : Bool → Link
fresh has_stream = record {
  has_stream = has_stream;
  stream_open = has_stream;
  socket_open = true;
  stream_over = false;
  client_gone = false;
  done = false;
  once = idle;
  output_pump = copying;
  input_pump = copying;
  handler = waiting;
  crashed = false;
}

-- The states that the handler reaches.
pub data Reach (has_stream : Bool) : Link → Type 0 where
  start : Reach has_stream (fresh has_stream)
  next :
      {l l' : Link} (move : Move) → Reach has_stream l → step move l ≡ some l' → Reach has_stream l'
