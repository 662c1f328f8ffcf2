-- ===== src/Discord/Rules.antt =====
-- internal/discord/forwarder.go: `getLogRules` and `loadLogRules`, the cache of the log rules.
-- `R` stands for the compiled expressions of the library regexp, and `P` for the payloads.
pub mod Laws
use play_bin.Base.{ℕ, String, Option, none, some, List, [], ◌∷◌, ◌++◌, ltb, if◌then◌else◌}
use play_bin.Base.Dict.{Dict, lookup, insert}

pub record LogRule (R P : Type 0) : Type 0 where
  pub regexp : List String
  pub webhook : List P
  pub res : List R

-- `logRulesState`; the time 0 is Go's zero time.
pub record RulesState (R P : Type 0) : Type 0 where
  pub rules : List (LogRule R P)
  pub last_loaded : ℕ

-- The inner loop: each expression is compiled, and the first that cannot be ends the loading.
unfoldable pub compile_all : {R : Type 0} → (String → Option R) → List String → Option (List R)
compile_all compile [] = some []
compile_all compile (pat ∷ pats) =
    let rest = compile_all compile pats in
    elim (compile pat) [
      | none ↦ none
      | some re ↦ elim rest [ none ↦ none | some res ↦ some (re ∷ res) ]
    ]

module _ {R P : Type 0} where
  unfoldable pub compile_rules :
      (String → Option R) → List (LogRule R P) → Option (List (LogRule R P))
  compile_rules compile [] = some []
  compile_rules compile (rule ∷ rules) =
      let rest = compile_rules compile rules in
      elim (compile_all compile rule.regexp) [
        | none ↦ none
        | some res ↦ elim rest [
          | none ↦ none
          | some done ↦ some (record rule { res = rule.res ++ res } ∷ done)
        ]
      ]

  -- `loadLogRules`: `decoded` is what the file decodes to, if it can be opened and decoded.
  unfoldable pub load_log_rules :
      (String → Option R) → Option (List (LogRule R P)) → Option (List (LogRule R P))
  load_log_rules compile none = none
  load_log_rules compile (some rules) = compile_rules compile rules

  -- What `getLogRules` makes of the state of one path; `stat` is the file's modification time.
  unfoldable pub refresh :
      (String → Option R)
      → Option ℕ
      → Option (List (LogRule R P))
      → RulesState R P
      → RulesState R P × List (LogRule R P)
  refresh compile none decoded state = (state, [])
  refresh compile (some t) decoded state =
      if ltb state.last_loaded t
      then elim (load_log_rules compile decoded) [
        | none ↦ (state, state.rules)
        | some rules ↦ (record { rules = rules; last_loaded = t }, rules)
      ]
      else (state, state.rules)

  unfoldable pub rules_state : Option (RulesState R P) → RulesState R P
  rules_state none = record { rules = []; last_loaded = 0 }
  rules_state (some state) = state

  -- `getLogRules`
  unfoldable pub get_log_rules :
      (String → Option R)
      → String
      → Option ℕ
      → Option (List (LogRule R P))
      → Dict (RulesState R P)
      → Dict (RulesState R P) × List (LogRule R P)
  get_log_rules compile path stat decoded cache =
      let (state, rules) = refresh compile stat decoded (rules_state (lookup path cache)) in
      (insert path state cache, rules)
