-- ===== src/Tests/Access.antt =====
-- internal/config/config.go and internal/api: concrete runs and instances.
use play_bin.Base.{String, true, none, some, [], ◌∷◌, ◌≡◌, ◌↔◌, ◌⊎◌, refl, All}
use play_bin.Base.Dict.{lookup, insert, get_or}
use play_bin.Text.{split}
use play_bin.Config.{no_user}
use play_bin.Config.Permission.{has_permission, container_read, perm_restore}
use play_bin.Config.Permission.Laws.{listed_for, SomeCovers, has_permission_iff}
use play_bin.World.{Trace, config_get, container_inspect}
use play_bin.Container.{remove_action}
use play_bin.Api.Auth.{Request, Sessions, token_of, login, real_name, auth}
use play_bin.Api.Auth.Laws.{Attempt, auth_iff}
use play_bin.Api.Handlers.{container_to_perm}
use play_bin.Api.Listing.{calculate_actions, all_items}
use play_bin.Api.Listing.Laws.{IsReadable, all_items-IsReadable}
use play_bin.Api.Listing.Offered.{offered_allowed}
use play_bin.Api.Routes.{route, required_perm}
use play_bin.Tests.Sample.{sample, sample_config, operator, minecraft}

opened : Unit {0}
unfolding lookup insert split has_permission token_of login real_name auth container_to_perm
    calculate_actions route required_perm
opened = tt

has_permission_iff_example : (has_permission operator "mc" "file.write" ≡ true) ↔ (
    SomeCovers (listed_for operator "mc") "file.write"
    ⊎ SomeCovers (listed_for operator "*") "file.write")
has_permission_iff_example = has_permission_iff operator "mc" "file.write"

abbrev first_login : Attempt
first_login = record { creds = some ("op", "pw"); random = some "00ff"; env = sample; before = [] }

abbrev request : String → String → Request
request token id = record {
  authorization = token;
  token = "";
  id = id;
  generation = "";
  tail = "";
  mode = "";
}

abbrev sessions : Sessions
sessions = ("00ff", "op") ∷ []

abbrev asked : Trace
asked = (config_get, sample_config) ∷ []

auth_iff_example : ((auth (request "00ff" "mc") sessions sample []).0 ≡ none) ↔ (
    (username : String) × (lookup (token_of (request "00ff" "mc")) sessions ≡ some username)
    × ((◌≡◌ {A = String} "mc" "")
        ⊎ (has_permission
              (get_or username no_user sample_config.users)
              (real_name (sample asked (container_inspect "mc")) "mc")
              container_read
            ≡ true)))
auth_iff_example = auth_iff (request "00ff" "mc") sessions sample []

offered_allowed_example :
    (has_permission operator "mc" (container_to_perm remove_action) ≡ true)
    × (has_permission operator "mc" perm_restore ≡ true)
unfolding opened
offered_allowed_example = offered_allowed operator "mc" "stop" minecraft remove_action refl

all_items-IsReadable_example : All (IsReadable operator) (
    all_items operator sample_config
      (record { id = "1"; names = "/mc" ∷ []; state = "exited" } ∷ []))
all_items-IsReadable_example =
    all_items-IsReadable operator sample_config
      (record { id = "1"; names = "/mc" ∷ []; state = "exited" } ∷ [])
