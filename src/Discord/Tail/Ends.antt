-- ===== src/Discord/Tail/Ends.antt =====
-- internal/discord/forwarder.go: the end of a forwarder that is cancelled.
use play_bin.Base.{
  ℕ, zero, suc, ◌+◌, ◌≤◌, ◌<◌, String, true, List, [], ◌∷◌, length, ◌≡◌, refl, arith, Bool-cases,
  Option-cases, some, ap, ◌∙◌, inl, inr,
}
use play_bin.Json.{Json}
use play_bin.World.{Rule, Trace, Env, ctx_done, scan_line}
use play_bin.World.Laws.{Keeps}
use play_bin.Discord.Tail.{
  Library, Stage, searching, reading, returned, execute_webhook, post_all, forward_rule,
  forward_line, search, read_line, tail_round, tail_rounds,
}

module _ (library : Library) (url server : String) (k : ℕ) where
  execute_webhook-grows :
      (body : Json) → Keeps (λ t. k ≤ length t) (execute_webhook library url server body)
  unfolding execute_webhook
  execute_webhook-grows body env h more = ground (arith, more)

  post_all-grows :
      (matches : List String) (raws : List Json)
      → Keeps (λ t. k ≤ length t) (post_all library url server matches raws)
  unfolding post_all
  post_all-grows matches [] env h more = more
  post_all-grows matches (raw ∷ raws) env h more =
      post_all-grows matches raws env _ (execute_webhook-grows _ env h more)

  forward_rule-grows :
      (line : String) (webhook : List Json) (res : List String)
      → Keeps (λ t. k ≤ length t) (forward_rule library url server line webhook res)
  unfolding forward_rule
  forward_rule-grows line webhook [] env h more = more
  forward_rule-grows line webhook (re ∷ res) env h more = ground (
    arith,
    post_all-grows (library.find_submatch re line) webhook env h more,
    forward_rule-grows line webhook res env h more,
  )

  forward_line-grows :
      (line : String) (rules : List Rule)
      → Keeps (λ t. k ≤ length t) (forward_line library url server line rules)
  unfolding forward_line
  forward_line-grows line [] env h more = more
  forward_line-grows line (rule ∷ rules) env h more =
      forward_line-grows line rules env _ (forward_rule-grows line rule.webhook rule.res env h more)

module _ (library : Library) (url server path : String) where
  abbrev round_trace : Stage → Env → Trace → Trace
  round_trace stage env h = (tail_round library url server path stage env h).1

  reading-grows :
      (line : String) (env : Env) (h : Trace)
      → length h ≤ length (read_line library url server path line env h).1
  unfolding read_line
  reading-grows line env h = elim (Bool-cases (env h ctx_done)) [
    | inl done ↦ rw done (omega arith)
    | inr live ↦
        rw live (forward_line-grows library url server (length h) line _ env _ (omega arith))
  ]

  searching-grows : (env : Env) (h : Trace) → length h < length (round_trace searching env h)
  unfolding tail_round search
  searching-grows env h = ground arith

  round-grows : (env : Env) (h : Trace) → length h < length (round_trace reading env h)
  unfolding tail_round
  round-grows env h = elim (Option-cases (env h scan_line)) [
    | inl gone ↦ rw gone (omega arith)
    | inr (line, more) ↦
        rw more (omega (arith, reading-grows line env ((scan_line, some line) ∷ h)))
  ]

  stays :
      (n : ℕ) (env : Env) (h : Trace)
      → (tail_rounds library url server path n returned env h).0 ≡ returned
  unfolding tail_rounds tail_round
  stays zero env h = refl
  stays (suc n) env h = stays n env h

  stays_if :
      (n : ℕ) (stage : Stage) (env : Env) (h : Trace)
      → stage ≡ returned
      → (tail_rounds library url server path n stage env h).0 ≡ returned
  stays_if n stage env h e =
      ap (λ s. (tail_rounds library url server path n s env h).0) e ∙ stays n env h

  searching-done :
      (env : Env) (h : Trace)
      → env h ctx_done ≡ true
      → (tail_round library url server path searching env h).0 ≡ returned
  unfolding tail_round
  searching-done env h done = ground (arith, done)

  reading-done :
      (line : String) (env : Env) (h : Trace)
      → env h ctx_done ≡ true
      → (read_line library url server path line env h).0 ≡ returned
  unfolding read_line
  reading-done line env h done = ground (arith, done)

  module _ (env : Env) (limit : ℕ)
      (is_done : (t : Trace) → limit ≤ length t → env t ctx_done ≡ true) where
    first :
        (n : ℕ) (h : Trace)
        → limit ≤ length h
        → (tail_rounds library url server path (suc n) searching env h).0 ≡ returned
    unfolding tail_rounds
    first n h late =
        stays_if n (tail_round library url server path searching env h).0 env _
          (searching-done env h (is_done h late))

    near :
        (stage : Stage) (n : ℕ) (h : Trace)
        → limit ≤ length h
        → (tail_rounds library url server path (suc (suc n)) stage env h).0 ≡ returned
    unfolding tail_rounds tail_round
    near searching n h late = first (suc n) h late
    near returned n h late = stays n env h
    near reading n h late = elim (Option-cases (env h scan_line)) [
      | inl gone ↦ rw gone (first n _ (omega (arith, late)))
      | inr (line, more) ↦
          let t : Trace = (scan_line, some line) ∷ h in
          rw more (
            stays_if (suc n) (read_line library url server path line env t).0 env _
              (reading-done line env t (is_done t (omega (arith, late)))))
    ]

    -- A forwarder whose context is cancelled, at the latest after a number of calls, returns, within
    -- that number of rounds and two more, whatever else it is answered.
    pub tail_rounds-ends :
        (n : ℕ) (stage : Stage) (h : Trace)
        → limit ≤ length h + n
        → (tail_rounds library url server path (suc (suc n)) stage env h).0 ≡ returned
    unfolding tail_rounds
    tail_rounds-ends zero stage h late = near stage zero h (omega (arith, late))
    tail_rounds-ends (suc n) searching h late =
        tail_rounds-ends n (tail_round library url server path searching env h).0
          (round_trace searching env h) (omega (arith, late, searching-grows env h))
    tail_rounds-ends (suc n) reading h late =
        tail_rounds-ends n (tail_round library url server path reading env h).0
          (round_trace reading env h) (omega (arith, late, round-grows env h))
    tail_rounds-ends (suc n) returned h late = stays (suc (suc (suc n))) env h
