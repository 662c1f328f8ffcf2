-- ===== src/Discord/Rules/Laws.antt =====
-- internal/discord/forwarder.go: what the cache of the log rules holds.
use play_bin.Base.{
  ℕ, String, Option, none, some, List, [], ◌∷◌, ◌++◌, ◌==◌, ltb, ◌≡◌, refl, arith, eq_iff, inl, inr,
  All, Bool-cases, Option-cases,
}
use play_bin.Base.Dict.{Dict, lookup, insert, lookup-insert}
use play_bin.Discord.Rules.{
  LogRule, RulesState, compile_all, compile_rules, load_log_rules, refresh, rules_state,
  get_log_rules,
}

module _ {R P : Type 0} where
  -- The compiled expressions of a rule are those of its texts.
  abbrev pub IsCompiled : (String → Option R) → LogRule R P → Type 0
  IsCompiled compile rule = compile_all compile rule.regexp ≡ some rule.res

  -- A rule as the decoder gives it.
  abbrev pub IsRaw : LogRule R P → Type 0
  IsRaw rule = rule.res ≡ []

  abbrev pub raw_rules : Option (List (LogRule R P)) → List (LogRule R P)
  raw_rules none = []
  raw_rules (some rules) = rules

  abbrev pub AllCompiled : (String → Option R) → Dict (RulesState R P) → Type 0
  AllCompiled compile cache = All (λ e. All (IsCompiled compile) e.1.rules) cache

  compile_rules-IsCompiled :
      (compile : String → Option R) (rules done : List (LogRule R P))
      → All IsRaw rules
      → compile_rules compile rules ≡ some done
      → All (IsCompiled compile) done
  unfolding compile_rules
  compile_rules-IsCompiled compile [] done raw e = let same : done ≡ [] = cc in rw same tt
  compile_rules-IsCompiled compile (rule ∷ rules) done (here, there) e =
      elim (Option-cases (compile_all compile rule.regexp)) [
        | inl p ↦ absurd (ground arith)
        | inr (res, p) ↦ elim (Option-cases (compile_rules compile rules)) [
          | inl q ↦ absurd (ground arith)
          | inr (rest, q) ↦
              let ih = compile_rules-IsCompiled compile rules rest there q in
              let shape : done ≡ record rule { res = rule.res ++ res } ∷ rest = ground arith in
              let one : rule.res ++ res ≡ res = rw here in rw shape (rw one p, ih)
        ]
      ]

  lookup-AllCompiled :
      (compile : String → Option R) (path : String) (cache : Dict (RulesState R P))
      → AllCompiled compile cache
      → All (IsCompiled compile) (rules_state (lookup path cache)).rules
  unfolding lookup rules_state
  lookup-AllCompiled compile path [] inv = tt
  lookup-AllCompiled compile path ((k, s) ∷ cache) (here, there) = elim (Bool-cases (k == path)) [
    | inl same ↦ rw same here
    | inr other ↦ rw other (lookup-AllCompiled compile path cache there)
  ]

  insert-AllCompiled :
      (compile : String → Option R) (path : String) (s : RulesState R P)
      (cache : Dict (RulesState R P))
      → All (IsCompiled compile) s.rules
      → AllCompiled compile cache
      → AllCompiled compile (insert path s cache)
  unfolding insert
  insert-AllCompiled compile path s [] new inv = (new, tt)
  insert-AllCompiled compile path s ((k, t) ∷ cache) new (here, there) =
      elim (Bool-cases (k == path)) [
        | inl same ↦ rw same (new, there)
        | inr other ↦ rw other (here, insert-AllCompiled compile path s cache new there)
      ]

  refresh_failed :
      (compile : String → Option R) (stat : Option ℕ) (decoded : Option (List (LogRule R P)))
      (state : RulesState R P)
      → load_log_rules compile decoded ≡ none
      → (refresh compile stat decoded state).0 ≡ state
  unfolding refresh
  refresh_failed compile none decoded state failed = refl
  refresh_failed compile (some t) decoded state failed = ground arith

  refresh-IsCompiled :
      (compile : String → Option R) (stat : Option ℕ) (decoded : Option (List (LogRule R P)))
      (state : RulesState R P)
      → All IsRaw (raw_rules decoded)
      → All (IsCompiled compile) state.rules
      → All (IsCompiled compile) (refresh compile stat decoded state).0.rules
        × All (IsCompiled compile) (refresh compile stat decoded state).1
  unfolding refresh load_log_rules
  refresh-IsCompiled compile none decoded state raw inv = (inv, tt)
  refresh-IsCompiled compile (some t) none state raw inv =
      elim (Bool-cases (ltb state.last_loaded t)) [
        | inl later ↦ rw later (inv, inv)
        | inr held ↦ rw held (inv, inv)
      ]
  refresh-IsCompiled compile (some t) (some rules) state raw inv =
      elim (Bool-cases (ltb state.last_loaded t)) [
        | inr held ↦ rw held (inv, inv)
        | inl later ↦ elim (Option-cases (compile_rules compile rules)) [
          | inl p ↦ rw (later, p) (inv, inv)
          | inr (done, p) ↦
              let new = compile_rules-IsCompiled compile rules done raw p in
              rw (later, p) (new, new)
        ]
      ]

  -- A file that cannot be loaded changes no rules of the cache, whatever its time: `getLogRules`
  -- keeps the rules of each path.
  pub get_log_rules_failed :
      (compile : String → Option R) (path other : String) (stat : Option ℕ)
      (decoded : Option (List (LogRule R P))) (cache : Dict (RulesState R P))
      → load_log_rules compile decoded ≡ none
      → rules_state (lookup other (get_log_rules compile path stat decoded cache).0)
        ≡ rules_state (lookup other cache)
  unfolding get_log_rules rules_state
  get_log_rules_failed compile path other stat decoded cache failed =
      let state = rules_state (lookup path cache) in
      let kept = refresh_failed compile stat decoded state failed in
      rw (lookup-insert path other (refresh compile stat decoded state).0 cache)
        (ground (arith, eq_iff path other))

  -- Every rule in the cache, and every rule that `getLogRules` returns, has its expressions compiled
  -- one for one, where the decoder gives none of them: the property is kept by each call.
  pub get_log_rules-AllCompiled :
      (compile : String → Option R) (path : String) (stat : Option ℕ)
      (decoded : Option (List (LogRule R P))) (cache : Dict (RulesState R P))
      → All IsRaw (raw_rules decoded)
      → AllCompiled compile cache
      → AllCompiled compile (get_log_rules compile path stat decoded cache).0
        × All (IsCompiled compile) (get_log_rules compile path stat decoded cache).1
  unfolding get_log_rules
  get_log_rules-AllCompiled compile path stat decoded cache raw inv =
      let state = rules_state (lookup path cache) in
      let (kept, returned) =
        refresh-IsCompiled compile stat decoded state raw
          (lookup-AllCompiled compile path cache inv) in
      (
        insert-AllCompiled compile path (refresh compile stat decoded state).0 cache kept inv,
        returned,
      )
