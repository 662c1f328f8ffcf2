-- ===== src/Api/Terminal/Link/Ends.antt =====
-- internal/api/handlers_ws.go: how the goroutines of a terminal come to their end.
use play_bin.Base.{
  ℕ, suc, ◌+◌, ◌≤◌, true, Option, none, some, List, [], ◌∷◌, not, ◌||◌, if◌then◌else◌, subst, Bool,
  false, ◌≡◌, inl, inr, arith, Option-cases,
}
use play_bin.Api.Terminal.Link.{
  Pump, copying, leaving, at_done, at_stream, at_socket, ended, busy, Handler, waiting,
  closing_socket, closing_stream, returned, output, input, Link, Move, fails, copies, leaves,
  cleans, handles, step, fresh, Reach, start, next,
}
use play_bin.Api.Terminal.Link.Safety.{IsSound, Reach-IsSound, step-IsSound}

-- The steps that a goroutine and the handler have left, the copying aside.
abbrev pump_left : Pump → ℕ
pump_left copying = 5
pump_left leaving = 4
pump_left at_done = 3
pump_left at_stream = 2
pump_left at_socket = 1
pump_left ended = 0

abbrev handler_left : Handler → ℕ
handler_left waiting = 3
handler_left closing_socket = 2
handler_left closing_stream = 1
handler_left returned = 0

abbrev left : Link → ℕ
left l = pump_left l.output_pump + pump_left l.input_pump + handler_left l.handler

-- Whether a source has ended by itself, or a goroutine has stopped copying.
abbrev copies_on : Pump → Bool
copies_on copying = true
copies_on _ = false

abbrev pub ending : Link → Bool
ending l =
    l.stream_over || l.client_gone || not (copies_on l.output_pump) || not (copies_on l.input_pump)

-- The steps that the handler's own code takes, the copying aside.
abbrev pub is_own : Move → Bool
is_own (fails _) = false
is_own (copies _) = false
is_own _ = true

-- A step of that kind that is possible.
abbrev choose_input : Link → Move
choose_input l = elim l.input_pump [
  | copying ↦ if l.client_gone || not l.socket_open then leaves input else handles
  | ended ↦ handles
  | _ ↦ cleans input
]

abbrev choose_output : Link → Move
choose_output l = if l.stream_over || not l.stream_open then leaves output else choose_input l

-- A goroutine at `once.Do` waits while the other one is inside.
abbrev choose : Link → Move
choose l = elim l.output_pump [
  | copying ↦ choose_output l
  | leaving ↦ elim l.once [ busy ↦ choose_input l | _ ↦ cleans output ]
  | ended ↦ choose_input l
  | _ ↦ cleans output
]

choose-is_own : (l : Link) → is_own (choose l) ≡ true
choose-is_own l = ground arith

-- The chosen step is possible until the end.
choose-step :
    (l : Link)
    → IsSound l
    → ending l ≡ true
    → step (choose l) l ≡ none
    → (l.handler ≡ returned) × (l.output_pump ≡ ended) × (l.input_pump ≡ ended)
unfolding step
choose-step l s e stuck = ground arith

unfoldable pub run : List Move → Link → Option Link
run [] l = some l
run (move ∷ moves) l = elim (step move l) [ none ↦ none | some l' ↦ run moves l' ]

-- The steps of a schedule that the handler's own code takes, the copying aside.
abbrev pub closing_moves : List Move → ℕ
closing_moves [] = 0
closing_moves (fails _ ∷ moves) = closing_moves moves
closing_moves (copies _ ∷ moves) = closing_moves moves
closing_moves (leaves _ ∷ moves) = suc (closing_moves moves)
closing_moves (cleans _ ∷ moves) = suc (closing_moves moves)
closing_moves (handles ∷ moves) = suc (closing_moves moves)

step-left :
    (move : Move) (l l' : Link)
    → IsSound l
    → step move l ≡ some l'
    → closing_moves (move ∷ []) + left l' ≤ left l
unfolding step
step-left (fails output) l l' s e = ground arith
step-left (fails input) l l' s e = ground arith
step-left (copies output) l l' s e = ground arith
step-left (copies input) l l' s e = ground arith
step-left (leaves output) l l' s e = ground arith
step-left (leaves input) l l' s e = ground arith
step-left (cleans output) l l' s e = ground arith
step-left (cleans input) l l' s e = ground arith
step-left handles l l' s e = ground arith

closing_moves_cons :
    (move : Move) (moves : List Move)
    → closing_moves (move ∷ moves) ≡ closing_moves (move ∷ []) + closing_moves moves
closing_moves_cons (fails _) moves = omega arith
closing_moves_cons (copies _) moves = omega arith
closing_moves_cons (leaves _) moves = omega arith
closing_moves_cons (cleans _) moves = omega arith
closing_moves_cons handles moves = omega arith

run-left :
    (moves : List Move) (l l' : Link)
    → IsSound l
    → run moves l ≡ some l'
    → closing_moves moves + left l' ≤ left l
unfolding run
run-left [] l l' s e = ground arith
run-left (move ∷ moves) l l' s e = elim (Option-cases (step move l)) [
  | inl none_left ↦ absurd (ground arith)
  | inr (m, p) ↦
      let later = run-left moves m l' (step-IsSound move l m s p) (ground arith) in
      omega (arith, later, step-left move l m s p, closing_moves_cons move moves)
]

run-Reach : (moves : List Move) (l l' : Link) → Reach true l → run moves l ≡ some l' → Reach true l'
unfolding run
run-Reach [] l l' r e = subst (Reach true) (ground (arith, e)) r
run-Reach (move ∷ moves) l l' r e = elim (Option-cases (step move l)) [
  | inl none_left ↦ absurd (ground arith)
  | inr (m, p) ↦ run-Reach moves m l' (next move r p) (ground arith)
]

-- However a schedule interleaves the steps of a terminal with a stream, once the container's side of
-- the stream has ended, or the client has gone, or a goroutine has stopped copying: where none of the
-- steps of the program's own code is possible any more, the copying aside, the handler has returned
-- and both goroutines have ended; and there were thirteen such steps at most. So a goroutine that
-- waits for data is not left behind: the other one and the handler close what it reads.
pub run-ends :
    (moves : List Move) (l : Link)
    → run moves (fresh true) ≡ some l
    → ending l ≡ true
    → ((move : Move) → is_own move ≡ true → step move l ≡ none)
    → (l.handler ≡ returned)
      × (l.output_pump ≡ ended)
      × (l.input_pump ≡ ended)
      × (closing_moves moves ≤ 13)
run-ends moves l e over stuck =
    let (handled, written, read) =
      choose-step l (Reach-IsSound (run-Reach moves (fresh true) l start e)) over
        (stuck (choose l) (choose-is_own l)) in
    (handled, written, read, omega (arith, run-left moves (fresh true) l (ground arith) e))
