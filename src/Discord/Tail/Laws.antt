-- ===== src/Discord/Tail/Laws.antt =====
-- internal/discord/forwarder.go: what a forwarder sends, and how it behaves when it is cancelled.
use play_bin.Base.{String, List, [], ◌∷◌, ◌++◌, map, if◌then◌else◌, ◌≡◌, refl, ap, sym, ◌∙◌, arith}
use play_bin.Json.{Json}
use play_bin.World.{Rule, Trace, Env, post_webhook}
use play_bin.Discord.Placeholders.{replace_placeholders}
use play_bin.Discord.Tail.{Library, execute_webhook, post_all, forward_rule, forward_line}

-- The webhook requests, the latest first.
abbrev pub posts : Trace → List (String × Json)
posts [] = []
posts ((post_webhook url payload, r) ∷ h) = (url, payload) ∷ posts h
posts (e ∷ h) = posts h

-- A list put on another one in reverse order.
abbrev pub onto {ℓ} : {A : Type ℓ} → List A → List A → List A
onto [] ys = ys
onto (x ∷ xs) ys = onto xs (x ∷ ys)

onto-append {ℓ} : {A : Type ℓ} (xs ys zs : List A) → onto (xs ++ ys) zs ≡ onto ys (onto xs zs)
onto-append [] ys zs = refl
onto-append (x ∷ xs) ys zs = onto-append xs ys (x ∷ zs)

module _ (library : Library) (url server line : String) where
  -- The requests for a rule's payloads, if the URL makes a request.
  abbrev pub requests : List String → List Json → List (String × Json)
  requests matches raws =
      if library.new_request url
      then map (λ raw. (url, replace_placeholders matches server raw)) raws
      else []

  -- What one rule asks for: its payloads with the groups of its first expression that matches.
  abbrev pub messages : List Json → List String → List (String × Json)
  messages webhook [] = []
  messages webhook (re ∷ res) =
      if library.match_string re line
      then requests (library.find_submatch re line) webhook
      else messages webhook res

  abbrev pub all_messages : List Rule → List (String × Json)
  all_messages [] = []
  all_messages (rule ∷ rules) = messages rule.webhook rule.res ++ all_messages rules

  execute_webhook-posts :
      (body : Json) (env : Env) (h : Trace)
      → posts (execute_webhook library url server body env h).1
        ≡ (if library.new_request url then (url, body) ∷ posts h else posts h)
  unfolding execute_webhook
  execute_webhook-posts body env h = ground arith

  post_all-posts :
      (matches : List String) (raws : List Json) (env : Env) (h : Trace)
      → posts (post_all library url server matches raws env h).1
        ≡ onto (requests matches raws) (posts h)
  unfolding post_all
  post_all-posts matches [] env h = ground arith
  post_all-posts matches (raw ∷ raws) env h =
      let first = replace_placeholders matches server raw in
      let t = (execute_webhook library url server first env h).1 in
      ground (arith, post_all-posts matches raws env t, execute_webhook-posts first env h)

  forward_rule-posts :
      (webhook : List Json) (res : List String) (env : Env) (h : Trace)
      → posts (forward_rule library url server line webhook res env h).1
        ≡ onto (messages webhook res) (posts h)
  unfolding forward_rule
  forward_rule-posts webhook [] env h = refl
  forward_rule-posts webhook (re ∷ res) env h = ground (
    arith,
    post_all-posts (library.find_submatch re line) webhook env h,
    forward_rule-posts webhook res env h,
  )

  -- If the webhook's URL makes a request, every rule sends its payloads once if one of its
  -- expressions matches the line, with the groups of the first that does, in the order of the rules
  -- and of the payloads, whatever the requests are answered; and nothing else is sent.
  pub forward_line-posts :
      (rules : List Rule) (env : Env) (h : Trace)
      → posts (forward_line library url server line rules env h).1
        ≡ onto (all_messages rules) (posts h)
  unfolding forward_line
  forward_line-posts [] env h = refl
  forward_line-posts (rule ∷ rules) env h =
      forward_line-posts rules env
        (forward_rule library url server line rule.webhook rule.res env h).1
      ∙ ap (onto (all_messages rules)) (forward_rule-posts rule.webhook rule.res env h)
      ∙ sym (onto-append (messages rule.webhook rule.res) (all_messages rules) (posts h))
