-- ===== src/Discord/Bots/Panics/Laws.antt =====
-- internal/discord/bot.go: which tokens end the process.
use play_bin.Base.{
  ◌<◌, eq_refl, subst, ℕ, String, Bool, true, false, not, ◌&&◌, ◌||◌, List, [], ◌∷◌, ◌++◌, ltb,
  contains, ◌==◌, ◌≡◌, ◌↔◌, ◌⊎◌, inl, inr, refl, arith, eq_iff, Bool-cases, ap,
}
use play_bin.Base.Dict.{Dict, lookup, lookup-insert}
use play_bin.Config.{Config}
use play_bin.Discord.Bots.{
  Session, live, nil_session, Connection, not_created, not_opened, opened, Bots, is_live, open_bot,
  tokens_of, start_bots,
}
use play_bin.Discord.Bots.Panics.{
  log_opened, started_log, stopped_log, logged_tokens, any_too_short, sync_bots_panics,
}
use play_bin.Discord.Forwarders.Laws.{has_key, has_key-insert}

abbrev pub is_created : Connection → Bool
is_created not_created = false
is_created _ = true

lookup-open_bot :
    (t token : String) (c : Connection) (s : Dict Session)
    → token == t ≡ false
    → lookup t (open_bot c token s) ≡ lookup t s
unfolding open_bot
lookup-open_bot t token not_created s other = refl
lookup-open_bot t token not_opened s other =
    ground (arith, other, lookup-insert token t nil_session s)
lookup-open_bot t token opened s other = ground (arith, other, lookup-insert token t live s)

contains-log_opened :
    (t token : String) (c : Connection) (rest : List String)
    → contains t (log_opened c token rest) ≡ ((is_created c && (t == token)) || contains t rest)
unfolding log_opened
contains-log_opened t token not_created rest = refl
contains-log_opened t token not_opened rest = refl
contains-log_opened t token opened rest = refl

contains-started_log :
    (t : String) (connect : String → Connection) (tokens : List String) (s : Dict Session)
    → contains t (started_log connect tokens s)
      ≡ (contains t tokens && (not (is_live (lookup t s)) && is_created (connect t)))
unfolding started_log
contains-started_log t connect [] s = refl
contains-started_log t connect (token ∷ tokens) s =
    let opened_s = open_bot (connect token) token s in
    let unchanged = contains-started_log t connect tokens s in
    let changed = contains-started_log t connect tokens opened_s in
    let logs = contains-log_opened t token (connect token) (started_log connect tokens opened_s) in
    elim (Bool-cases (t == token)) [
      | inl same ↦
          let e = (eq_iff t token).0 same in
          let live_same = ap (λ x. is_live (lookup x s)) e in
          let created_same = ap (λ x. is_created (connect x)) e in
          ground (arith, same, unchanged, changed, logs, live_same, created_same)
      | inr other ↦
          let apart : token == t ≡ false = ground (arith, other, eq_iff t token, eq_iff token t) in
          let kept = lookup-open_bot t token (connect token) s apart in
          ground (arith, other, unchanged, changed, logs, kept)
    ]

contains-stopped_log :
    (t : String) (active : List String) (s : Dict Session)
    → contains t (stopped_log active s) ≡ (has_key t s && not (contains t active))
unfolding stopped_log
contains-stopped_log t active [] = refl
contains-stopped_log t active ((token, held) ∷ s) =
    ground (arith, eq_iff token t, eq_iff t token, contains-stopped_log t active s)

contains-append :
    (t : String) (xs ys : List String) → contains t (xs ++ ys) ≡ (contains t xs || contains t ys)
contains-append t [] ys = refl
contains-append t (x ∷ xs) ys = ground (arith, contains-append t xs ys)

has_key-open_bot :
    (t token : String) (c : Connection) (s : Dict Session)
    → token == t ≡ false
    → has_key t (open_bot c token s) ≡ has_key t s
unfolding open_bot
has_key-open_bot t token not_created s other = refl
has_key-open_bot t token not_opened s other =
    ground (arith, other, has_key-insert t token nil_session s)
has_key-open_bot t token opened s other = ground (arith, other, has_key-insert t token live s)

-- A token that is not active has a session after the first loop if it had one before.
has_key-start_bots :
    (t : String) (connect : String → Connection) (tokens : List String) (s : Dict Session)
    → contains t tokens ≡ false
    → has_key t (start_bots connect tokens s) ≡ has_key t s
unfolding start_bots
has_key-start_bots t connect [] s missing = refl
has_key-start_bots t connect (token ∷ tokens) s missing =
    let opened_s = open_bot (connect token) token s in
    let apart : token == t ≡ false = ground (arith, missing, eq_iff t token, eq_iff token t) in
    let others : contains t tokens ≡ false = ground (arith, missing) in
    ground (
      arith,
      has_key-open_bot t token (connect token) s apart,
      has_key-start_bots t connect tokens s others,
      has_key-start_bots t connect tokens opened_s others,
    )

-- The token is that of a configured server, has no open session, and the library can make one; or no
-- configured server uses it, and it has a session or nil.
abbrev pub IsLogged : (String → Connection) → Config → Bots → String → Type 0
IsLogged connect cfg bots t =
    ((contains t (tokens_of cfg.servers) ≡ true)
      × (is_live (lookup t bots.sessions) ≡ false)
      × (is_created (connect t) ≡ true))
    ⊎ ((contains t (tokens_of cfg.servers) ≡ false) × (has_key t bots.sessions ≡ true))

contains-logged_tokens :
    (t : String) (connect : String → Connection) (cfg : Config) (last_loaded : ℕ) (bots : Bots)
    → (contains t (logged_tokens connect cfg last_loaded bots) ≡ true)
      ↔ ((bots.updated_at < last_loaded) × IsLogged connect cfg bots t)
unfolding logged_tokens
contains-logged_tokens t connect cfg last_loaded bots =
    let active = tokens_of cfg.servers in
    let started = started_log connect active bots.sessions in
    let stopped = stopped_log active (start_bots connect active bots.sessions) in
    let first = contains-started_log t connect active bots.sessions in
    let second = contains-stopped_log t active (start_bots connect active bots.sessions) in
    let both = contains-append t started stopped in
    elim (Bool-cases (contains t active)) [
      | inl used ↦ (
        λ e. ground (arith, e, used, first, second, both),
        λ (lt, l). ground (arith, used, first, second, both),
      )
      | inr unused ↦
          let kept = has_key-start_bots t connect active bots.sessions unused in
          (
            λ e. ground (arith, e, unused, first, second, both, kept),
            λ (lt, l). ground (arith, unused, first, second, both, kept),
          )
    ]

too_short-found :
    (size : String → ℕ) (tokens : List String)
    → any_too_short size tokens ≡ true
    → (t : String) × (size t < 4) × (contains t tokens ≡ true)
unfolding any_too_short
too_short-found size [] e = absurd (cc e)
too_short-found size (token ∷ tokens) e = elim (Bool-cases (ltb (size token) 4)) [
  | inl short ↦ (token, ground (arith, short), ground (arith, eq_refl token))
  | inr long ↦
      let (t, lt, c) = too_short-found size tokens (ground (arith, e, long)) in
      (t, lt, ground (arith, c))
]

found-too_short :
    (size : String → ℕ) (tokens : List String) (t : String)
    → size t < 4
    → contains t tokens ≡ true
    → any_too_short size tokens ≡ true
unfolding any_too_short
found-too_short size [] t lt c = absurd (cc c)
found-too_short size (token ∷ tokens) t lt c = elim (Bool-cases (t == token)) [
  | inl same ↦
      let short : size token < 4 = subst (λ x. size x < 4) ((eq_iff t token).0 same) lt in
      ground (arith, short)
  | inr other ↦
      let rest = found-too_short size tokens t lt (ground (arith, c, other)) in ground (arith, rest)
]

-- `SyncBots` ends the process by a panic exactly if the configuration was loaded since its last run and
-- some token of fewer than four bytes is that of a configured server, has no open session and the
-- library can make one, or is used by no configured server any more and has a session or nil.
pub sync_bots_panics_iff :
    (size : String → ℕ) (connect : String → Connection) (cfg : Config) (last_loaded : ℕ)
    (bots : Bots)
    → (sync_bots_panics size connect cfg last_loaded bots ≡ true) ↔ (
        (t : String) × (size t < 4) × (bots.updated_at < last_loaded) × IsLogged connect cfg bots t)
unfolding sync_bots_panics
sync_bots_panics_iff size connect cfg last_loaded bots =
    let tokens = logged_tokens connect cfg last_loaded bots in
    (
      λ e.
          let (t, lt, c) = too_short-found size tokens e in
          let (loaded, l) = (contains-logged_tokens t connect cfg last_loaded bots).0 c in
          (t, lt, loaded, l),
      λ (t, lt, loaded, l).
          found-too_short size tokens t lt
            ((contains-logged_tokens t connect cfg last_loaded bots).1 (loaded, l)),
    )
