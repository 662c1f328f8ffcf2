-- ===== src/Api/Listing/Laws.antt =====
-- internal/api/handlers_containers.go: what the list of containers shows.

use text.Mathlib.TextLemmas.{nil-append, cons-append}
use play_bin.Base.{
  String, true, List, [], ◌∷◌, head_text, ◌<>◌, ◌≡◌, ◌⊎◌, refl, arith, All, All-append, inl, inr,
}
use play_bin.Base.Dict.{Dict}
use play_bin.Config.{Config, UserConfig, ServerConfig}
use play_bin.Config.Permission.{has_permission, container_read}
use play_bin.World.{Summary}
use play_bin.Api.Auth.{drop_first}
use play_bin.Api.Listing.{ListItem, docker_map, server_item, server_items, engine_items, all_items}

-- The item's first name is that of a container that the user may read.
abbrev pub IsReadable : UserConfig → ListItem → Type 0
IsReadable user item = has_permission user (drop_first (head_text item.names)) container_read ≡ true

drop_first-slash : (name : String) → drop_first ("/" <> name) ≡ name
drop_first-slash name = rw (cons-append, nil-append)

cons_cases : (l : List String) → (l ≡ []) ⊎ ((x : String) × (rest : List String) × (l ≡ x ∷ rest))
cons_cases [] = inl refl
cons_cases (x ∷ rest) = inr (x, rest, refl)

server_items-IsReadable :
    (user : UserConfig) (m : Dict Summary) (servers : Dict ServerConfig)
    → All (IsReadable user) (server_items user m servers).0
unfolding server_items server_item
server_items-IsReadable user m [] = tt
server_items-IsReadable user m ((name, server) ∷ servers) =
    ground (arith, server_items-IsReadable user m servers, drop_first-slash name)

engine_items-IsReadable :
    (user : UserConfig) (processed : List String) (cs : List Summary)
    → All (IsReadable user) (engine_items user processed cs)
unfolding engine_items
engine_items-IsReadable user processed [] = tt
engine_items-IsReadable user processed (c ∷ cs) =
    let ih = engine_items-IsReadable user processed cs in
    elim (cons_cases c.names) [ inl e ↦ rw e ih | inr (first, more, e) ↦ rw e (ground arith) ]

-- The list shows no container that the user may not read.
pub all_items-IsReadable :
    (user : UserConfig) (cfg : Config) (cs : List Summary)
    → All (IsReadable user) (all_items user cfg cs)
unfolding all_items
all_items-IsReadable user cfg cs =
    let found = server_items user (docker_map cs []) cfg.servers in
    All-append (IsReadable user) found.0 (engine_items user found.1 cs)
      (server_items-IsReadable user (docker_map cs []) cfg.servers)
      (engine_items-IsReadable user found.1 cs)
