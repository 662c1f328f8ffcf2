-- ===== src/Discord/Bots/Laws.antt =====
-- internal/discord/bot.go: which sessions there are after a synchronisation.
use play_bin.Base.{
  ℕ, ◌<◌, String, true, false, Option, none, some, List, [], ◌∷◌, ◌==◌, ltb, contains,
  if◌then◌else◌, ◌≡◌, refl, arith, eq_iff, inl, inr, Bool-cases, ◌∙◌, ap,
}
use play_bin.Base.Dict.{Dict, lookup, lookup-insert}
use play_bin.Config.{Config}
use play_bin.Discord.Bots.{
  Session, live, nil_session, Connection, not_created, not_opened, opened, Bots, tokens_of,
  open_bot, is_live, start_bots, stop_bots, sync_bots,
}

-- What becomes of an active token's session: an open one stays, and any other is what the library's
-- answer makes of it.
abbrev pub settled : Connection → Option Session → Option Session
settled c (some live) = some live
settled not_created s = s
settled not_opened s = some nil_session
settled opened s = some live

-- The branch of the loop for one token, where the library gives `c`.
started : Connection → String → Dict Session → Dict Session
unfolding is_live
started c token sessions =
    if is_live (lookup token sessions) then sessions else open_bot c token sessions

lookup-open_bot :
    (t token : String) (c : Connection) (sessions : Dict Session)
    → is_live (lookup token sessions) ≡ false
    → lookup t (open_bot c token sessions)
      ≡ (if token == t then settled c (lookup t sessions) else lookup t sessions)
unfolding is_live open_bot
lookup-open_bot t token not_created sessions h = ground (arith, eq_iff token t)
lookup-open_bot t token not_opened sessions h =
    ground (arith, eq_iff token t, lookup-insert token t nil_session sessions)
lookup-open_bot t token opened sessions h =
    ground (arith, eq_iff token t, lookup-insert token t live sessions)

settled_live : (c : Connection) (s : Option Session) → is_live s ≡ true → settled c s ≡ s
unfolding is_live
settled_live c none h = cc
settled_live c (some live) h = refl
settled_live c (some nil_session) h = cc

lookup-started :
    (t token : String) (c : Connection) (sessions : Dict Session)
    → lookup t (started c token sessions)
      ≡ (if token == t then settled c (lookup t sessions) else lookup t sessions)
unfolding started
lookup-started t token c sessions = elim (Bool-cases (is_live (lookup token sessions))) [
  | inr dead ↦ rw dead (lookup-open_bot t token c sessions dead)
  | inl alive ↦
      rw alive (ground (arith, eq_iff token t, settled_live c (lookup token sessions) alive))
]

settled_twice : (c : Connection) (s : Option Session) → settled c (settled c s) ≡ settled c s
settled_twice c (some live) = refl
settled_twice not_created none = refl
settled_twice not_created (some nil_session) = refl
settled_twice not_opened none = refl
settled_twice not_opened (some nil_session) = refl
settled_twice opened none = refl
settled_twice opened (some nil_session) = refl

lookup-start_bots :
    (t : String) (connect : String → Connection) (tokens : List String) (sessions : Dict Session)
    → lookup t (start_bots connect tokens sessions)
      ≡ (if contains t tokens then settled (connect t) (lookup t sessions) else lookup t sessions)
unfolding start_bots started
lookup-start_bots t connect [] sessions = refl
lookup-start_bots t connect (token ∷ tokens) sessions =
    let ih = lookup-start_bots t connect tokens (started (connect token) token sessions) in
    let here = lookup-started t token (connect token) sessions in
    elim (Bool-cases (token == t)) [
      | inl same ↦
          let e = (eq_iff token t).0 same in
          let c : connect token ≡ connect t = ap connect e in
          let here' : lookup t (started (connect token) token sessions)
              ≡ settled (connect t) (lookup t sessions) =
            here ∙ rw same (ap (λ x. settled x (lookup t sessions)) c) in
          ih
          ∙ rw here' (ground (arith, eq_iff t token, settled_twice (connect t) (lookup t sessions)))
      | inr other ↦ ih ∙ rw here (ground (arith, eq_iff t token, eq_iff token t))
    ]

lookup-stop_bots :
    (t : String) (active : List String) (sessions : Dict Session)
    → lookup t (stop_bots active sessions) ≡ (if contains t active then lookup t sessions else none)
unfolding stop_bots lookup
lookup-stop_bots t active [] = ground arith
lookup-stop_bots t active ((token, s) ∷ sessions) =
    let there = lookup-stop_bots t active sessions in ground (arith, eq_iff token t)

-- After a synchronisation with a configuration that was loaded since the last one, a token has the
-- session that follows from its old one and the library's answer if a configured server uses the
-- token, and none otherwise: open sessions are kept, and those of other tokens are gone.
pub sync_bots-settled :
    (t : String) (connect : String → Connection) (cfg : Config) (loaded : ℕ) (bots : Bots)
    → bots.updated_at < loaded
    → lookup t (sync_bots connect cfg loaded bots).sessions ≡ (
        if contains t (tokens_of cfg.servers)
        then settled (connect t) (lookup t bots.sessions)
        else none)
unfolding sync_bots
sync_bots-settled t connect cfg loaded bots later = ground (
  arith,
  lookup-stop_bots t (tokens_of cfg.servers)
      (start_bots connect (tokens_of cfg.servers) bots.sessions),
  lookup-start_bots t connect (tokens_of cfg.servers) bots.sessions,
)

-- A second synchronisation before the configuration is loaded again changes nothing, whatever the
-- library would answer: a session that could not be opened is not tried again.
pub sync_bots_twice :
    (connect retry : String → Connection) (cfg : Config) (loaded : ℕ) (bots : Bots)
    → sync_bots retry cfg loaded (sync_bots connect cfg loaded bots)
      ≡ sync_bots connect cfg loaded bots
unfolding sync_bots
sync_bots_twice connect retry cfg loaded bots = elim (Bool-cases (ltb bots.updated_at loaded)) [
  | inl later ↦ let same : ltb loaded loaded ≡ false = ground arith in rw (later, same)
  | inr held ↦ rw held (rw held)
]
