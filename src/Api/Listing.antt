-- ===== src/Api/Listing.antt =====
-- internal/api/handlers_containers.go: `ListContainers` and `calculateActions`.
pub mod Laws
pub mod Offered
use play_bin.Base.{
  String, Bool, true, false, not, ◌||◌, ◌&&◌, Option, none, some, List, [], ◌∷◌, ◌++◌, ◌==◌, ltb,
  length, contains, if◌then◌else◌, ◌<>◌,
}
use play_bin.Base.Dict.{Dict, lookup, insert, get_or}
use play_bin.Config.{Config, UserConfig, ServerConfig, ComposeConfig, no_user}
use play_bin.Config.Permission.{has_permission, container_read, container_write, container_execute}
use play_bin.World.{Summary, Result, ok, err, M, pure, call, ◌>>=◌, config_get, container_list}
use play_bin.Api.Auth.{Request, Reply, failure, success, Sessions, token_of, drop_first}

-- `ContainerListItem`
pub record ListItem : Type 0 where
  pub id : String
  pub names : List String
  pub state : String
  pub actions : List String
  pub permissions : List String

-- The containers of the engine by name.
add_names : Summary → List String → Dict Summary → Dict Summary
add_names c [] m = m
add_names c (name ∷ names) m = add_names c names (insert (drop_first name) c m)

unfoldable pub docker_map : List Summary → Dict Summary → Dict Summary
unfolding add_names
docker_map [] m = m
docker_map (c ∷ cs) m = docker_map cs (add_names c c.names m)

abbrev when : Bool → List String → List String
when b l = if b then l else []

has_image : Option ComposeConfig → Bool
has_image none = false
has_image (some c) = not (c.image == "")

is_set {ℓ} : {A : Type ℓ} → Option A → Bool
is_set none = false
is_set (some _) = true

-- `calculateActions`
unfoldable pub calculate_actions : UserConfig → String → ServerConfig → List String
unfolding has_image is_set
calculate_actions user name server =
    if not (has_permission user name container_execute)
    then []
    else when (has_image server.compose) ("start" ∷ [])
      ++ (when (is_set server.commands.stop) ("stop" ∷ "kill" ∷ [])
          ++ (when (ltb 0 (length server.commands.backup)) ("backup" ∷ "restore" ∷ [])
              ++ ("remove" ∷ [])))

-- `item.Permissions`; the name that stands for the execute permission differs between the two loops.
unfoldable pub permissions_of : UserConfig → String → String → List String
permissions_of user name execute =
    when (has_permission user name container_read) (container_read ∷ [])
    ++ (when (has_permission user name container_write) (container_write ∷ [])
        ++ when (has_permission user name container_execute) (execute ∷ []))

state_of : Option Summary → String
state_of none = "missing"
state_of (some c) = c.state

unfoldable pub server_item : UserConfig → Dict Summary → String → ServerConfig → ListItem
unfolding state_of
server_item user containers name server = record {
  id = name;
  names = ("/" <> name) ∷ [];
  state = state_of (lookup name containers);
  actions = calculate_actions user name server;
  permissions = permissions_of user name container_execute;
}

-- The first loop, over the configured servers, with the names that it found in the engine.
unfoldable pub server_items :
    UserConfig → Dict Summary → Dict ServerConfig → List ListItem × List String
unfolding is_set
server_items user containers [] = ([], [])
server_items user containers ((name, server) ∷ servers) =
    let (items, processed) = server_items user containers servers in
    if not (has_permission user name container_read) then (items, processed) else (
      server_item user containers name server ∷ items,
      if is_set (lookup name containers) then name ∷ processed else processed,
    )

-- The second loop, over the containers of the engine.
unfoldable pub engine_items : UserConfig → List String → List Summary → List ListItem
engine_items user processed [] = []
engine_items user processed (c ∷ cs) =
    let items = engine_items user processed cs in
    elim c.names [
      | [] ↦ items
      | first ∷ _ ↦
          if contains (drop_first first) processed
            || not (has_permission user (drop_first first) container_read)
          then items
          else record {
            id = c.id;
            names = c.names;
            state = c.state;
            actions = [];
            permissions = permissions_of user (drop_first first) "execute";
          }
            ∷ items
    ]

unfoldable pub all_items : UserConfig → Config → List Summary → List ListItem
all_items user cfg containers =
    let (items, processed) = server_items user (docker_map containers []) cfg.servers in
    items ++ engine_items user processed containers

-- `ListContainers`
unfoldable pub list_containers : Request → Sessions → M (Reply × List ListItem)
list_containers r sessions = do
  found ← call container_list
  elim found [
    | err _ ↦ pure (failure "500" "Internal Server Error", [])
    | ok containers ↦ do
      cfg ← call config_get
      pure (
        success,
        all_items (get_or (get_or (token_of r) "" sessions) no_user cfg.users) cfg containers,
      )
  ]
