-- ===== src/Api/Routes/Powerless.antt =====
-- internal/api: what a request can do for a user without permission to write or execute.
use play_bin.Base.{
  sym, ◌∙◌, ℕ, suc, String, Bool, true, false, Option, some, List, [], ◌∷◌, All, if◌then◌else◌, ◌≡◌,
  refl, ap, subst, arith, inl, inr, Option-cases,
}
use play_bin.Base.Dict.{get_or}
use play_bin.Config.{no_user}
use play_bin.Config.Permission.{has_permission, container_write, perm_restore}
use play_bin.World.{
  Event, Trace, Env, config_get, container_create, container_start, container_stop, container_kill,
  container_remove, container_attach, conn_write, exec_create, exec_attach, container_inspect,
  ws_upgrade, container_stats, M, shell_create, shell_attach,
}
use play_bin.World.Laws.{mutates, Keeps}
use play_bin.Container.Generations.Kept.{list_generations-Keeps}
use play_bin.Api.Auth.{Request, Sessions, token_of, auth}
use play_bin.Api.Handlers.{container_to_perm, list_backups, inspect_handler, get_logs}
use play_bin.Api.Listing.{list_containers}
use play_bin.Api.Terminal.{terminal, open_stream, open_shell, open_logs, connect, upgrade}
use play_bin.Api.Stats.{stats, stats_round, send_stats, send_report}
use play_bin.Api.Stats.Laws.{rounds-Keeps}
use play_bin.Api.Routes.{
  Endpoint, containers, inspect, backups, restore_route, cmd, logs, act, terminal_socket,
  stats_socket, route, handle, status_of, reply_of, with_auth, serve, required_perm, handle_denied,
}
use play_bin.Api.Routes.Documented.{needed, documented, needed-documented}

-- The calls that change a container, reach into it, or may change a file of the host.
abbrev pub acts : Event → Bool
acts (container_create _ _ _, r) = true
acts (container_start _, r) = true
acts (container_stop _ _, r) = true
acts (container_kill _ _, r) = true
acts (container_remove _, r) = true
acts (container_attach _, r) = true
acts (conn_write _ _, r) = true
acts (exec_create _ _, r) = true
acts (exec_attach _, r) = true
acts (shell_create _, r) = true
acts (shell_attach _, r) = true
acts e = mutates e

-- The number of such calls.
abbrev pub actions_of : Trace → ℕ
actions_of [] = 0
actions_of (e ∷ h) = if acts e then suc (actions_of h) else actions_of h

-- In the configuration read after these calls, the session's user lacks the permission on the container
-- as the request names it.
abbrev pub Lacks : Request → Sessions → Env → Trace → String → Type 0
Lacks r s env h perm =
    has_permission (get_or (get_or (token_of r) "" s) no_user (env h config_get).users) r.id perm
    ≡ false

-- All of these permissions are missing, in every configuration that may be read.
abbrev pub IsPowerless : List String → Request → Sessions → Env → Type 0
IsPowerless perms r s env = (h : Trace) → All (Lacks r s env h) perms

-- A request that is answered without any such call.
abbrev KeepsCount : {A : Type 0} → M A → Type 0
KeepsCount m = (env : Env) (h : Trace) → actions_of (m env h).1 ≡ actions_of h

round-acts : (k : ℕ) → Keeps (λ t. actions_of t ≡ k) stats_round
unfolding stats_round send_stats send_report
round-acts k env h e = ground (arith, e)

stats-acts : (rounds : ℕ) (r : Request) (s : Sessions) → KeepsCount (stats rounds r s)
unfolding stats
stats-acts rounds r s env h =
    let t : Trace = (config_get, env h config_get) ∷ h in
    let u : Trace = (ws_upgrade, env t ws_upgrade) ∷ t in
    let w : Trace = (container_stats r.id, env u (container_stats r.id)) ∷ u in
    let k = actions_of h in
    ground (arith, rounds-Keeps (λ t. actions_of t ≡ k) (round-acts k) rounds env w refl)

list_backups-acts : (r : Request) → KeepsCount (list_backups r)
unfolding list_backups
list_backups-acts r env h =
    let kept =
      list_generations-Keeps (λ t. actions_of t ≡ actions_of h) (λ dir a h i. i) (λ cfg h i. i) r.id
        env h refl in
    ground (arith, kept)

auth-acts : (r : Request) (s : Sessions) → KeepsCount (auth r s)
unfolding auth
auth-acts r s env h = ground arith

reading-acts :
    (r : Request) (s : Sessions)
    → KeepsCount (list_containers r s) × KeepsCount (inspect_handler r) × KeepsCount (get_logs r)
unfolding list_containers inspect_handler get_logs
reading-acts r s = (λ env h. ground arith, λ env h. ground arith, λ env h. ground arith)

terminal-acts :
    (r : Request) (mode tail : String) (s : Sessions) (env : Env)
    → IsPowerless (needed (some terminal_socket)) r s env
    → (h : Trace) → actions_of (terminal r mode tail s env h).1 ≡ actions_of h
unfolding terminal open_stream open_shell open_logs connect upgrade
terminal-acts r mode tail s env powerless h =
    let t : Trace = (container_inspect r.id, env h (container_inspect r.id)) ∷ h in
    ground (arith, (powerless t).0)

-- An endpoint that asks for the permission.
denied-acts :
    (rounds : ℕ) (e : Endpoint) (r : Request) (command : Option String) (s : Sessions) (env : Env)
    (h : Trace) (perm : String)
    → required_perm e ≡ some perm
    → Lacks r s env h perm
    → actions_of (handle rounds e r command s env h).1 ≡ actions_of h
denied-acts rounds e r command s env h perm p lacks =
    let (text, reply) = handle_denied rounds e r command s env h perm p lacks in
    ap (λ done. actions_of done.1) reply

handle-acts :
    (rounds : ℕ) (e : Endpoint) (r : Request) (command : Option String) (s : Sessions) (env : Env)
    → IsPowerless (needed (some e)) r s env
    → (h : Trace) → actions_of (handle rounds e r command s env h).1 ≡ actions_of h
unfolding handle status_of reply_of required_perm
handle-acts rounds containers r command s env powerless h = (reading-acts r s).0 env h
handle-acts rounds inspect r command s env powerless h = (reading-acts r s).1 env h
handle-acts rounds backups r command s env powerless h = list_backups-acts r env h
handle-acts rounds logs r command s env powerless h = (reading-acts r s).2 env h
handle-acts rounds terminal_socket r command s env powerless h =
    terminal-acts r r.mode r.tail s env powerless h
handle-acts rounds stats_socket r command s env powerless h = stats-acts rounds r s env h
handle-acts rounds restore_route r command s env powerless h =
    denied-acts rounds restore_route r command s env h perm_restore refl (powerless h).0
handle-acts rounds cmd r command s env powerless h =
    denied-acts rounds cmd r command s env h container_write refl (powerless h).0
handle-acts rounds (act a) r command s env powerless h =
    denied-acts rounds (act a) r command s env h (container_to_perm a) refl (powerless h).0

with_auth-acts :
    (rounds : ℕ) (e : Endpoint) (r : Request) (command : Option String) (s : Sessions) (env : Env)
    → IsPowerless (needed (some e)) r s env
    → (h : Trace) → actions_of (with_auth rounds e r command s env h).1 ≡ actions_of h
unfolding with_auth
with_auth-acts rounds e r command s env powerless h =
    let seen = auth r s env h in
    ground (arith, auth-acts r s env h, handle-acts rounds e r command s env powerless seen.1)

-- A request for any path is answered without a call that changes a container, sends it input, runs a
-- process in it, or may change a file of the host, if the session's user lacks the permission that
-- the README gives for what the path does, on the container as the request names it, in any
-- configuration that may be read; the paths of the lists, the details, the logs and the statistics
-- need no such permission, as they never make such a call.
pub serve_powerless :
    (rounds : ℕ) (path : String) (r : Request) (command : Option String) (s : Sessions) (env : Env)
    (h : Trace)
    → IsPowerless (documented path) r s env
    → actions_of (serve rounds path r command s env h).1 ≡ actions_of h
unfolding serve
serve_powerless rounds path r command s env h powerless = elim (Option-cases (route path)) [
  | inl other ↦ ground (arith, other)
  | inr (e, found) ↦
      let same : documented path ≡ needed (some e) =
        sym (needed-documented path) ∙ ap needed found in
      let lacks = subst (λ perms. IsPowerless perms r s env) same powerless in
      ground (arith, found, with_auth-acts rounds e r command s env lacks h)
]
