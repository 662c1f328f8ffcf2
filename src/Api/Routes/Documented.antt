-- ===== src/Api/Routes/Documented.antt =====
-- internal/api/server.go and README.md: the permission that the handler of each path asks for.
use play_bin.Base.{
  map, ◌==◌, String, Bool, true, false, Option, none, some, List, [], ◌∷◌, if◌then◌else◌, ◌≡◌, refl,
}
use play_bin.Config.Permission.{container_write, perm_restore}
use play_bin.Container.{start_action, stop_action, kill_action, backup_action, remove_action}
use play_bin.Api.Handlers.{container_to_perm}
use play_bin.Api.Routes.{
  Endpoint, containers, inspect, backups, restore_route, cmd, logs, act, terminal_socket,
  stats_socket, route,
}

-- The permissions without which a path should make no such call, as the README lists them: for the
-- paths that only read there are none, so they should never make one.
abbrev pub documented : String → List String
documented path =
    if path == "/api/containers"
    then []
    else if path == "/api/container/inspect"
    then []
    else if path == "/api/container/start"
    then "container.execute.start" ∷ []
    else if path == "/api/container/stop"
    then "container.execute.stop" ∷ []
    else if path == "/api/container/kill"
    then "container.execute.kill" ∷ []
    else if path == "/api/container/backup"
    then "container.execute.backup" ∷ []
    else if path == "/api/container/backups"
    then []
    else if path == "/api/container/restore"
    then "container.execute.restore" ∷ []
    else if path == "/api/container/remove"
    then "container.execute.remove" ∷ []
    else if path == "/api/container/cmd"
    then "container.write" ∷ []
    else if path == "/api/container/logs"
    then []
    else if path == "/ws/terminal"
    then "container.write" ∷ []
    else if path == "/ws/stats"
    then []
    else []

-- The permissions that the endpoints ask for.
abbrev pub needed : Option Endpoint → List String
needed (some restore_route) = perm_restore ∷ []
needed (some cmd) = container_write ∷ []
needed (some (act a)) = container_to_perm a ∷ []
needed (some terminal_socket) = container_write ∷ []
needed _ = []

-- The first of some tests that holds, as in the routes.
abbrev first_of {ℓ} : {A : Type ℓ} → List (Bool × A) → A → A
first_of [] last = last
first_of ((b, a) ∷ tests) last = if b then a else first_of tests last

needed-first_of :
    (tests : List (Bool × Endpoint))
    → needed (first_of (map (λ t. (t.0, some t.1)) tests) none)
      ≡ first_of (map (λ t. (t.0, needed (some t.1))) tests) []
needed-first_of [] = refl
needed-first_of ((true, e) ∷ tests) = refl
needed-first_of ((false, e) ∷ tests) = needed-first_of tests

abbrev tests_of : String → List (Bool × Endpoint)
tests_of path =
    (path == "/api/containers", containers)
    ∷ (path == "/api/container/inspect", inspect)
    ∷ (path == "/api/container/start", act start_action)
    ∷ (path == "/api/container/stop", act stop_action)
    ∷ (path == "/api/container/kill", act kill_action)
    ∷ (path == "/api/container/backup", act backup_action)
    ∷ (path == "/api/container/backups", backups)
    ∷ (path == "/api/container/restore", restore_route)
    ∷ (path == "/api/container/remove", act remove_action)
    ∷ (path == "/api/container/cmd", cmd)
    ∷ (path == "/api/container/logs", logs)
    ∷ (path == "/ws/terminal", terminal_socket)
    ∷ (path == "/ws/stats", stats_socket)
    ∷ []

pub needed-documented : (path : String) → needed (route path) ≡ documented path
unfolding route container_to_perm
needed-documented path = needed-first_of (tests_of path)
