-- ===== src/Api/Terminal/Link/Safety.antt =====
-- internal/api/handlers_ws.go: what the interleavings of the goroutines keep.
use play_bin.Base.{not, ◌||◌, ◌&&◌, Bool, true, false, some, ◌≡◌, ◌⊎◌, refl, arith}
use play_bin.Api.Terminal.Link.{
  Pump, copying, leaving, at_done, at_stream, at_socket, ended, Once, idle, busy, finished, Handler,
  waiting, closing_socket, closing_stream, returned, output, input, Link, Move, fails, copies,
  leaves, cleans, handles, step, Reach, start, next,
}

-- Whether a goroutine is outside `once.Do`, before it and after it.
abbrev pub before : Pump → Bool
before copying = true
before leaving = true
before _ = false

abbrev pub outside : Pump → Bool
outside ended = true
outside p = before p

-- What holds of a goroutine inside `once.Do`.
abbrev pub Inside : Pump → Link → Type 0
Inside at_done l = l.done ≡ false
Inside at_stream l = l.done ≡ true
Inside at_socket l = (l.done ≡ true) × (l.stream_open ≡ false)
Inside _ l = ⊥

abbrev pub ByOnce : Once → Link → Type 0
ByOnce idle l = (l.done ≡ false) × (before l.output_pump ≡ true) × (before l.input_pump ≡ true)
ByOnce busy l =
    (Inside l.output_pump l × (before l.input_pump ≡ true))
    ⊎ (Inside l.input_pump l × (before l.output_pump ≡ true))
ByOnce finished l =
    (l.done ≡ true)
    × (l.stream_open ≡ false)
    × (l.socket_open ≡ false)
    × (outside l.output_pump ≡ true)
    × (outside l.input_pump ≡ true)

abbrev pub ByHandler : Handler → Link → Type 0
ByHandler waiting l = Unit
ByHandler closing_socket l = l.done ≡ true
ByHandler closing_stream l = (l.done ≡ true) × (l.socket_open ≡ false)
ByHandler returned l = (l.done ≡ true) × (l.socket_open ≡ false) × (l.stream_open ≡ false)

pub record IsSound (l : Link) : Type 0 where
  pub streaming : l.has_stream ≡ true
  pub running : l.crashed ≡ false
  pub by_once : ByOnce l.once l
  pub by_handler : ByHandler l.handler l

pub step-IsSound : (move : Move) (l l' : Link) → IsSound l → step move l ≡ some l' → IsSound l'
unfolding step
step-IsSound (fails output) l l' s e = ground arith
step-IsSound (fails input) l l' s e = ground arith
step-IsSound (copies output) l l' s e = ground arith
step-IsSound (copies input) l l' s e = ground arith
step-IsSound (leaves output) l l' s e = ground arith
step-IsSound (leaves input) l l' s e = ground arith
step-IsSound (cleans output) l l' s e = ground arith
step-IsSound (cleans input) l l' s e = ground arith
step-IsSound handles l l' s e = ground arith

pub Reach-IsSound : {l : Link} → Reach true l → IsSound l
Reach-IsSound start = ground arith
Reach-IsSound (next {l} {l'} move r e) = step-IsSound move l l' (Reach-IsSound r) e

abbrev pub has_returned : Handler → Bool
has_returned returned = true
has_returned _ = false

abbrev pub has_ended : Pump → Bool
has_ended ended = true
has_ended _ = false

-- Whatever the interleaving, with a stream no goroutine panics (so `done` is closed once at most);
-- when the handler has returned, the WebSocket and the stream are closed, also if goroutines are
-- still running, and a goroutine that has ended leaves them closed, too.
pub Reach-IsReleased :
    {l : Link}
    → Reach true l
    → (l.crashed ≡ false)
      × ((has_returned l.handler || has_ended l.output_pump || has_ended l.input_pump)
            && (l.socket_open || l.stream_open || not l.done)
          ≡ false)
Reach-IsReleased {l} r = let s = Reach-IsSound r in ground arith

-- With no stream, the goroutine that reads it can only panic.
pub Reach-copying : {l : Link} → Reach false l → (l.has_stream ≡ false) × (l.output_pump ≡ copying)
unfolding step
Reach-copying start = (refl, refl)
Reach-copying (next {l} {l'} (fails output) r e) = let ih = Reach-copying r in ground arith
Reach-copying (next {l} {l'} (fails input) r e) = let ih = Reach-copying r in ground arith
Reach-copying (next {l} {l'} (copies output) r e) = let ih = Reach-copying r in ground arith
Reach-copying (next {l} {l'} (copies input) r e) = let ih = Reach-copying r in ground arith
Reach-copying (next {l} {l'} (leaves output) r e) = let ih = Reach-copying r in ground arith
Reach-copying (next {l} {l'} (leaves input) r e) = let ih = Reach-copying r in ground arith
Reach-copying (next {l} {l'} (cleans output) r e) = let ih = Reach-copying r in ground arith
Reach-copying (next {l} {l'} (cleans input) r e) = let ih = Reach-copying r in ground arith
Reach-copying (next {l} {l'} handles r e) = let ih = Reach-copying r in ground arith
