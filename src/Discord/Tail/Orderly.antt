-- ===== src/Discord/Tail/Orderly.antt =====
-- internal/discord/forwarder.go: what a forwarder leaves when it is cancelled.
use play_bin.Base.{
  ℕ, zero, suc, ◌+◌, String, Bool, true, false, not, ◌&&◌, ◌||◌, List, [], ◌∷◌, ◌≡◌, arith,
  Bool-cases, Option-cases, inl, inr,
}
use play_bin.Json.{Json}
use play_bin.World.{
  Rule, ok, Trace, Env, follow_logs, ctx_done, scan_line, reader_close, post_webhook,
  response_close,
}
use play_bin.World.Laws.{Keeps}
use play_bin.Discord.Tail.{
  Library, Stage, searching, reading, returned, execute_webhook, post_all, forward_rule,
  forward_line, search, read_line, tail_round, tail_rounds,
}

-- Whether the context was seen to be cancelled.
abbrev pub cancelled : Trace → Bool
cancelled [] = false
cancelled ((ctx_done, r) ∷ h) = r || cancelled h
cancelled (e ∷ h) = cancelled h

-- Whether nothing but the closing of readers came after that.
abbrev pub quiet : Trace → Bool
quiet [] = true
quiet ((reader_close, r) ∷ h) = quiet h
quiet (e ∷ h) = not (cancelled h) && quiet h

-- The log streams that were opened, and the readers that were closed.
abbrev pub opened : Trace → ℕ
opened [] = 0
opened ((follow_logs _ _, ok _) ∷ h) = suc (opened h)
opened (e ∷ h) = opened h

abbrev pub closed : Trace → ℕ
closed [] = 0
closed ((reader_close, r) ∷ h) = suc (closed h)
closed (e ∷ h) = closed h

-- The webhook requests that had a response, and the responses whose body was closed.
abbrev pub answered : Trace → ℕ
answered [] = 0
answered ((post_webhook _ _, ok _) ∷ h) = suc (answered h)
answered (e ∷ h) = answered h

abbrev pub disposed : Trace → ℕ
disposed [] = 0
disposed ((response_close, r) ∷ h) = suc (disposed h)
disposed (e ∷ h) = disposed h

abbrev pub has_returned : Stage → Bool
has_returned returned = true
has_returned _ = false

-- The readers that a stage holds.
abbrev pub held : Stage → ℕ
held reading = 1
held _ = 0

pub record IsOrderly (stage : Stage) (h : Trace) : Type 0 where
  pub is_quiet : quiet h ≡ true
  pub ends : cancelled h ≡ has_returned stage
  pub balanced : opened h ≡ closed h + held stage
  pub released : answered h ≡ disposed h

module _ (library : Library) (url server : String) where
  execute_webhook-IsOrderly :
      (body : Json) → Keeps (IsOrderly reading) (execute_webhook library url server body)
  unfolding execute_webhook
  execute_webhook-IsOrderly body env h o = record {
    is_quiet = ground (arith, o.is_quiet, o.ends);
    ends = ground (arith, o.ends);
    balanced = ground (arith, o.balanced);
    released = ground (arith, o.released);
  }

  post_all-IsOrderly :
      (matches : List String) (raws : List Json)
      → Keeps (IsOrderly reading) (post_all library url server matches raws)
  unfolding post_all
  post_all-IsOrderly matches [] env h o = o
  post_all-IsOrderly matches (raw ∷ raws) env h o =
      post_all-IsOrderly matches raws env _ (execute_webhook-IsOrderly _ env h o)

  forward_rule-IsOrderly :
      (line : String) (webhook : List Json) (res : List String)
      → Keeps (IsOrderly reading) (forward_rule library url server line webhook res)
  unfolding forward_rule
  forward_rule-IsOrderly line webhook [] env h o = o
  forward_rule-IsOrderly line webhook (re ∷ res) env h o = ground (
    arith,
    post_all-IsOrderly (library.find_submatch re line) webhook env h o,
    forward_rule-IsOrderly line webhook res env h o,
  )

  forward_line-IsOrderly :
      (line : String) (rules : List Rule)
      → Keeps (IsOrderly reading) (forward_line library url server line rules)
  unfolding forward_line
  forward_line-IsOrderly line [] env h o = o
  forward_line-IsOrderly line (rule ∷ rules) env h o =
      forward_line-IsOrderly line rules env _
        (forward_rule-IsOrderly line rule.webhook rule.res env h o)

  module _ (path : String) where
    read_line-IsOrderly :
        (line : String) (env : Env) (h : Trace)
        → IsOrderly reading h
        → IsOrderly
            (read_line library url server path line env h).0
            (read_line library url server path line env h).1
    unfolding read_line
    read_line-IsOrderly line env h o = elim (Bool-cases (env h ctx_done)) [
      | inl done ↦ rw done (record {
        is_quiet = ground (arith, done, o.is_quiet, o.ends);
        ends = ground (arith, done);
        balanced = ground (arith, o.balanced);
        released = o.released;
      })
      | inr live ↦ rw live (
          forward_line-IsOrderly line _ env _ (record {
            is_quiet = ground (arith, live, o.is_quiet, o.ends);
            ends = ground (arith, live, o.ends);
            balanced = o.balanced;
            released = o.released;
          }))
    ]

    round-IsOrderly :
        (stage : Stage) (env : Env) (h : Trace)
        → IsOrderly stage h
        → IsOrderly
            (tail_round library url server path stage env h).0
            (tail_round library url server path stage env h).1
    unfolding tail_round search read_line
    round-IsOrderly searching env h o = record {
      is_quiet = ground (arith, o.is_quiet, o.ends, o.balanced);
      ends = ground (arith, o.ends);
      balanced = ground (arith, o.balanced);
      released = ground (arith, o.released);
    }
    round-IsOrderly reading env h o = elim (Option-cases (env h scan_line)) [
      | inl gone ↦ rw gone (record {
        is_quiet = ground (arith, gone, o.is_quiet, o.ends);
        ends = ground (arith, gone, o.ends);
        balanced = ground (arith, gone, o.balanced);
        released = o.released;
      })
      | inr (line, some_line) ↦ rw some_line (
          read_line-IsOrderly line env _ (record {
            is_quiet = ground (arith, o.is_quiet, o.ends);
            ends = o.ends;
            balanced = o.balanced;
            released = o.released;
          }))
    ]
    round-IsOrderly returned env h o = o

    -- However many rounds a forwarder runs, and whatever it is answered: it stops in the round in
    -- which it sees that its context is cancelled; from then on it sends nothing and asks for
    -- nothing, but closes its reader; each log stream that it opened is closed, but for the one that
    -- it is reading; and the body of every response to a webhook request was closed.
    pub tail_rounds-IsOrderly :
        (rounds : ℕ) (stage : Stage) (env : Env) (h : Trace)
        → IsOrderly stage h
        → IsOrderly
            (tail_rounds library url server path rounds stage env h).0
            (tail_rounds library url server path rounds stage env h).1
    unfolding tail_rounds
    tail_rounds-IsOrderly zero stage env h o = o
    tail_rounds-IsOrderly (suc n) stage env h o =
        tail_rounds-IsOrderly n (tail_round library url server path stage env h).0 env
          (tail_round library url server path stage env h).1 (round-IsOrderly stage env h o)
