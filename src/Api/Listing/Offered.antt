-- ===== src/Api/Listing/Offered.antt =====
-- internal/api/handlers_containers.go: the actions that the list offers and the permissions that the
-- handlers ask for.
use play_bin.Base.{
  String, true, List, [], ◌∷◌, ◌==◌, contains, ◌≡◌, refl, arith, eq_iff, Bool-cases, Option-cases,
  inl, inr, ap,
}
use play_bin.Base.Dict.{get_or}
use play_bin.Text.{split}
use play_bin.Config.{UserConfig, ServerConfig}
use play_bin.Config.Permission.{
  match_parts, match_recursive, check_permission, has_permission, container_execute, perm_restore,
  perm_start, perm_stop, perm_kill, perm_backup, perm_remove,
}
use play_bin.Container.{
  Action, start_action, stop_action, kill_action, backup_action, restore_action, remove_action,
  unknown_action,
}
use play_bin.Api.Handlers.{container_to_perm}
use play_bin.Api.Listing.{calculate_actions}

match_parts-execute :
    (ps : List String) (x : String)
    → match_parts ps ("container" ∷ "execute" ∷ "*" ∷ []) ≡ true
    → match_parts ps ("container" ∷ "execute" ∷ x ∷ []) ≡ true
unfolding match_parts
match_parts-execute [] x h = cc
match_parts-execute (p ∷ []) x h = ground arith
match_parts-execute (p ∷ q ∷ []) x h = ground arith
match_parts-execute (p ∷ q ∷ r ∷ ps) x h = ground (arith, eq_iff r "*")

match_recursive-execute :
    (p required x : String)
    → split b'.' required ≡ "container" ∷ "execute" ∷ x ∷ []
    → match_recursive p container_execute ≡ true
    → match_recursive p required ≡ true
unfolding match_recursive
match_recursive-execute p required x e h = elim (Bool-cases (p == "*")) [
  | inl star ↦ rw star
  | inr plain ↦
      let parts : split b'.' container_execute ≡ "container" ∷ "execute" ∷ "*" ∷ [] =
        unfold split in refl in
      let below = match_parts-execute (split b'.' p) x in
      elim (Bool-cases (p == container_execute)) [
        | inl same ↦
            let q = ap (split b'.') ((eq_iff p container_execute).0 same) in
            ground (arith, below (rw q (unfold match_parts split in refl)))
        | inr other ↦ ground (arith, below (rw (← parts) (ground arith)))
      ]
]

check_permission-execute :
    (ps : List String) (required x : String)
    → split b'.' required ≡ "container" ∷ "execute" ∷ x ∷ []
    → check_permission ps container_execute ≡ true
    → check_permission ps required ≡ true
unfolding check_permission
check_permission-execute [] required x e h = cc
check_permission-execute (p ∷ ps) required x e h =
    ground (arith, check_permission-execute ps required x e, match_recursive-execute p required x e)

-- The permission for every action covers one for a single action.
pub has_permission-execute :
    (user : UserConfig) (name required x : String)
    → split b'.' required ≡ "container" ∷ "execute" ∷ x ∷ []
    → has_permission user name container_execute ≡ true
    → has_permission user name required ≡ true
unfolding has_permission
has_permission-execute user name required x e h = elim (Option-cases user.permissions) [
  | inl p ↦ absurd (ground arith)
  | inr (perms, p) ↦ ground (
    arith,
    check_permission-execute (get_or name [] perms) required x e,
    check_permission-execute (get_or "*" [] perms) required x e,
  )
]

container_to_perm_allowed :
    (user : UserConfig) (name : String) (action : Action)
    → has_permission user name container_execute ≡ true
    → has_permission user name (container_to_perm action) ≡ true
unfolding container_to_perm split
container_to_perm_allowed user name start_action h =
    has_permission-execute user name perm_start "start" refl h
container_to_perm_allowed user name stop_action h =
    has_permission-execute user name perm_stop "stop" refl h
container_to_perm_allowed user name kill_action h =
    has_permission-execute user name perm_kill "kill" refl h
container_to_perm_allowed user name backup_action h =
    has_permission-execute user name perm_backup "backup" refl h
container_to_perm_allowed user name remove_action h =
    has_permission-execute user name perm_remove "remove" refl h
container_to_perm_allowed user name restore_action h = h
container_to_perm_allowed user name (unknown_action t) h = h

-- If the list offers a user any action on a server, then the user has the permission that the
-- handler of each action asks for, that of the restore handler included.
pub offered_allowed :
    (user : UserConfig) (name offered : String) (server : ServerConfig) (action : Action)
    → contains offered (calculate_actions user name server) ≡ true
    → (has_permission user name (container_to_perm action) ≡ true)
      × (has_permission user name perm_restore ≡ true)
unfolding calculate_actions split
offered_allowed user name offered server action h =
    let all : has_permission user name container_execute ≡ true = ground arith in
    (
      container_to_perm_allowed user name action all,
      has_permission-execute user name perm_restore "restore" refl all,
    )
