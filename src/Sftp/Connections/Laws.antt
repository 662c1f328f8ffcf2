-- ===== src/Sftp/Connections/Laws.antt =====
-- internal/sftp/server.go: who is served on a connection, and which requests end the process.
use play_bin.Base.{
  ℕ, suc, String, Bool, true, false, ◌&&◌, some, List, [], ◌∷◌, ◌==◌, ltb, length, if◌then◌else◌,
  ◌≡◌, refl, sym, subst, arith, All, eq_iff, inl, inr, Option-cases, Bool-cases,
}
use mathlib.Core.List.{Memᴰ}
use play_bin.Base.Dict.{lookup}
use play_bin.Config.{UserConfig}
use play_bin.World.{Result, err, Trace, Env, ok, config_get, stat, keygen}
use play_bin.World.Laws.{Past, here, later, past_trans, Result-cases}
use play_bin.Sftp.{authenticate}
use play_bin.Sftp.Connections.{
  key_path, is_missing, load_key, new_server, SshRequest, reply_request, reply_all, NewChannel,
  Fate, served, channel_fate, channel_fates, handle_conn, Connection, accept_all, start,
  start_accepting,
}

-- A fate that serves no user, or one with a property.
abbrev pub Serves : (String → Type 0) → Fate → Type 0
Serves P (served user) = P user
Serves P _ = Unit

fate-Serves :
    (P : String → Type 0) (user : String) (c : NewChannel) → P user → Serves P (channel_fate user c)
unfolding channel_fate
fate-Serves P user c known = elim (Bool-cases (c.kind == "session")) [
  | inr other ↦ rw other tt
  | inl session ↦ elim (Bool-cases c.accepted) [
    | inl taken ↦ rw (session, taken) known
    | inr missed ↦ rw (session, missed) tt
  ]
]

fates-Serves :
    (P : String → Type 0) (user : String) (chans : List NewChannel)
    → P user
    → All (Serves P) (channel_fates user chans)
unfolding channel_fates channel_fate
fates-Serves P user [] known = tt
fates-Serves P user (c ∷ cs) known = (fate-Serves P user c known, fates-Serves P user cs known)

-- The name is the user's, whose password in the configuration is the one that was given.
abbrev pub IsLogin : String → String → Env → Trace → String → Type 0
IsLogin user pass env h name =
    (name ≡ user)
    × ((u : UserConfig) × ((lookup user (env h config_get).users ≡ some u) × (u.password ≡ pass)))

pub authenticate-IsLogin :
    (user pass name : String) (env : Env) (h : Trace)
    → (authenticate user pass env h).0 ≡ ok name
    → IsLogin user pass env h name
unfolding authenticate
authenticate-IsLogin user pass name env h good =
    elim (Option-cases (lookup user (env h config_get).users)) [
      | inl unknown ↦ absurd (ground (arith, unknown, good))
      | inr (u, known) ↦
          let right : u.password ≡ pass =
            (eq_iff u.password pass).0 (ground (arith, known, good)) in
          (ground (arith, known, good), (u, (known, right)))
    ]

-- Only a user whose name and password stand in the configuration is served files, on a connection
-- that named them, and only as that user, whatever channels the client asks for.
pub handle_conn-Serves :
    (user pass : String) (chans : List NewChannel) (env : Env) (h : Trace)
    → All (Serves (IsLogin user pass env h)) (handle_conn user pass chans env h).0
unfolding handle_conn authenticate
handle_conn-Serves user pass chans env h = elim (Result-cases (authenticate user pass env h).0) [
  | inr (e, bad) ↦ rw bad tt
  | inl (name, good) ↦ rw good (
      fates-Serves (IsLogin user pass env h) name chans
        (authenticate-IsLogin user pass name env h good))
]

pub authenticate-calls :
    (user pass : String) (env : Env) (h : Trace)
    → (authenticate user pass env h).1 ≡ (config_get, env h config_get) ∷ h
unfolding authenticate
authenticate-calls user pass env h = ground arith

handle_conn-Past :
    (user pass : String) (chans : List NewChannel) (env : Env) (h : Trace)
    → Past h (handle_conn user pass chans env h).1
unfolding handle_conn
handle_conn-Past user pass chans env h =
    let asked = authenticate-calls user pass env h in
    let only : (handle_conn user pass chans env h).1 ≡ (config_get, env h config_get) ∷ h =
      ground (arith, asked) in
    subst (Past h) (sym only) (later _ here)

accept_all-Past :
    (incoming : List (Result Connection)) (env : Env) (h : Trace)
    → Past h (accept_all incoming env h).1
unfolding accept_all
accept_all-Past [] env h = here
accept_all-Past (err e ∷ rest) env h = accept_all-Past rest env h
accept_all-Past (ok c ∷ rest) env h =
    past_trans (handle_conn-Past c.user c.pass c.chans env h)
      (accept_all-Past rest env (handle_conn c.user c.pass c.chans env h).1)

-- The fates of the channels of one of the connections that were accepted, whose user was looked up
-- during these calls.
abbrev pub IsServed : List (Result Connection) → Env → Trace → List Fate → Type 0
IsServed incoming env h fates =
    (c : Connection) × (now : Trace) × Memᴰ (ok c) incoming
    × Past now h
    × All (Serves (IsLogin c.user c.pass env now)) fates

IsServed-tail :
    (r : Result Connection) (rest : List (Result Connection)) (env : Env) (h : Trace)
    (all : List (List Fate))
    → All (IsServed rest env h) all
    → All (IsServed (r ∷ rest) env h) all
IsServed-tail r rest env h [] served_all = tt
IsServed-tail r rest env h (fates ∷ more) ((c, now, listed, past, known), others) =
    ((c, now, Memᴰ.tail listed, past, known), IsServed-tail r rest env h more others)

accept_all-IsServed :
    (incoming : List (Result Connection)) (env : Env) (h : Trace)
    → All (IsServed incoming env (accept_all incoming env h).1) (accept_all incoming env h).0
unfolding accept_all
accept_all-IsServed [] env h = tt
accept_all-IsServed (err e ∷ rest) env h =
    IsServed-tail (err e) rest env _ _ (accept_all-IsServed rest env h)
accept_all-IsServed (ok c ∷ rest) env h =
    let next = (handle_conn c.user c.pass c.chans env h).1 in
    (
      (
        c,
        h,
        Memᴰ.head refl,
        accept_all-Past (ok c ∷ rest) env h,
        handle_conn-Serves c.user c.pass c.chans env h,
      ),
      IsServed-tail (ok c) rest env _ _ (accept_all-IsServed rest env next),
    )

-- The SFTP server as a whole, whatever connections come, and whichever fail: only a user whose name
-- and password stood in the configuration at some time of the run is served files, on a connection
-- that named them, and only as that user, whatever channels the client asks for.
pub start_accepting-IsServed :
    (incoming : List (Result Connection)) (env : Env) (h : Trace)
    → All
        (IsServed incoming env (start_accepting incoming env h).1)
        (start_accepting incoming env h).0
unfolding start_accepting
start_accepting-IsServed incoming env h = elim (Bool-cases (start env h).0) [
  | inl entered ↦ rw entered (accept_all-IsServed incoming env (start env h).1)
  | inr stopped ↦ rw stopped tt
]

abbrev is_short : SshRequest → Bool
is_short r = r.kind == "subsystem" && ltb (length r.payload) 4

abbrev pub any_short : List SshRequest → Bool
any_short [] = false
any_short (r ∷ rs) = if is_short r then true else any_short rs

-- The goroutine that answers the requests of a channel panics, which ends the process, if and only if
-- one of them asks for a subsystem with a payload of fewer than four bytes.
pub reply_all-panics : (rs : List SshRequest) → (reply_all rs).1 ≡ any_short rs
unfolding reply_all reply_request
reply_all-panics [] = refl
reply_all-panics (r ∷ rs) = ground (arith, reply_all-panics rs)

abbrev pub keys_made : Trace → ℕ
keys_made [] = 0
keys_made ((keygen _, r) ∷ h) = suc (keys_made h)
keys_made (e ∷ h) = keys_made h

-- A host key that is there, or whose presence cannot be told, is never replaced.
pub new_server-keys_made :
    (env : Env) (h : Trace)
    → is_missing (env h (stat key_path)) ≡ false
    → keys_made (new_server env h).1 ≡ keys_made h
unfolding new_server load_key
new_server-keys_made env h present = ground (arith, present)
