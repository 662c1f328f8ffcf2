-- ===== src/Tests/Server.antt =====
-- main.go, internal/api/server.go, internal/sftp/server.go, internal/webdav/server.go and
-- internal/discord/service.go: concrete runs and instances.
use play_bin.Base.{ℕ, String, true, false, none, some, [], ◌∷◌, ◌≡◌, ◌⊎◌, ◌↔◌, refl}
use play_bin.Base.Dict.{lookup, insert}
use play_bin.Text.{split, strip_prefix}
use play_bin.Config.Permission.{has_permission}
use play_bin.World.{M, pure, config_get}
use play_bin.World.Laws.{mutations}
use play_bin.Sftp.{remove}
use play_bin.Sftp.Granted.{AllGranted}
use play_bin.Sftp.Session.{finished, filelist, filecmd, serve_connection}
use play_bin.Sftp.Session.Laws.{serve_connection-AllGranted}
use play_bin.Sftp.Connections.Laws.{IsLogin}
use play_bin.Webdav.Server.Laws.{IsKnown}
use play_bin.Webdav.Session
use play_bin.Webdav.Session.Laws.{serve_request-AllGranted}
use play_bin.Api.Auth.{Request, Sessions, token_of, login}
use play_bin.Api.Routes.{route, serve}
use play_bin.Api.Routes.Powerless.{actions_of, serve_powerless}
use play_bin.Api.Server.{Incoming, serve_any, serve_login}
use play_bin.Api.Server.Laws.{Turn, logins, sessions_after}
use play_bin.Api.Server.Guards.{Guarded, served_guarded}
use play_bin.Api.Server.Holders.{holder, sessions_after-holder}
use play_bin.Discord.Forwarders.{run_forwarders}
use play_bin.Discord.Forwarders.Laws.{configured}
use play_bin.Discord.Forwarders.Live.{Fits, replay}
use play_bin.Discord.Forwarders.Live.Rounds.{none_live, run_forwarders-configured}
use play_bin.Process.{prepare, main, launched, Serves, services, started, http_address, main-Serves}
use play_bin.Tests.Sample.{sample, sample_config}

opened : Unit {0}
unfolding lookup insert split strip_prefix has_permission token_of login route serve_any serve_login
opened = tt

abbrev request : String → Request
request id = record {
  authorization = "00ff";
  token = "";
  id = id;
  generation = "";
  tail = "";
  mode = "";
}

abbrev sessions : Sessions
sessions = ("00ff", "op") ∷ []

serve_powerless_example :
    actions_of (serve 5 "/api/container/start" (request "web") none sessions sample []).1
    ≡ actions_of []
unfolding opened
serve_powerless_example =
    serve_powerless 5 "/api/container/start" (request "web") none sessions sample []
      (λ h. (refl, tt))

abbrev library : String → String → M ℕ
library user path = pure 200

abbrev files : String → M ℕ
files path = pure 404

abbrev incoming : String → Incoming
incoming path = record {
  path = path;
  request = request "mc";
  basic = none;
  creds = some ("op", "pw");
  random = some "00ff";
  command = none;
}

abbrev first : Turn
first = record { incoming = incoming "/api/login"; env = sample; before = [] }

served_guarded_example :
    Guarded library files 5 (first ∷ []) (incoming "/api/container/inspect") sample []
served_guarded_example =
    served_guarded library files 5 (first ∷ []) (incoming "/api/container/inspect") sample []

sessions_after-holder_example :
    lookup "00ff" (sessions_after library files 5 (first ∷ []))
    ≡ holder "00ff" (logins (first ∷ []))
sessions_after-holder_example = sessions_after-holder library files 5 (first ∷ []) "00ff"

abbrev removing : String → Session.Script (Unit {0})
removing name = Session.call_remove_all name (λ r. Session.finished tt)

-- The connection lists a directory and removes a file.
session_tests :
    (mutations
        (serve_connection "op" "pw"
          (filelist "/mc" (λ r. filecmd remove "/mc/data/x" "" (λ o. finished)))
          sample
          []).1
      ≡ 1)
    × (mutations (Session.serve_request removing (some ("op", "pw")) "/dav/mc/data/x" sample []).1
        ≡ 1)
    × (mutations (Session.serve_request removing (some ("op", "no")) "/dav/mc/data/x" sample []).1
        ≡ 0)
unfolding opened play_bin.Sftp.Session.serve_connection play_bin.Sftp.authenticate
    play_bin.Sftp.Session.run_script play_bin.Sftp.file_cmd play_bin.Sftp.may_write
    play_bin.Sftp.first_part play_bin.Sftp.run_command play_bin.Sftp.file_list
    play_bin.Sftp.list_failed play_bin.Text.trim play_bin.Vfs.map_path play_bin.Vfs.map_parts
    play_bin.Vfs.path_parts play_bin.Text.Paths.clean play_bin.Vfs.check_container
    play_bin.Vfs.map_below play_bin.Vfs.find_mount play_bin.Config.Permission.check_permission
    play_bin.Config.Permission.match_parts play_bin.Config.Permission.match_recursive
    play_bin.Text.Paths.render play_bin.Text.Paths.clean_parts play_bin.Text.Paths.join_path
    play_bin.Text.Paths.rel_path play_bin.Text.Paths.resolve play_bin.Text.Paths.resolve_all
    play_bin.Text.Paths.step_up play_bin.Text.Paths.strip_common play_bin.Text.join
    play_bin.Vfs.Listing.list_container play_bin.Vfs.Listing.mount_infos Session.serve_request
    Session.run_script play_bin.Webdav.Server.handler play_bin.Webdav.Server.stripped
    play_bin.Webdav.authorize play_bin.Webdav.remove_all_dav play_bin.Webdav.check_write_perm
session_tests = (refl, refl, refl)

serve_connection-AllGranted_example :
    ((serve_connection "op" "pw"
        (filelist "/mc" (λ r. filecmd remove "/mc/data/x" "" (λ o. finished)))
        sample
        []).1
      ≡ (config_get, sample_config) ∷ [])
    ⊎ (IsLogin "op" "pw" sample [] "op"
        × AllGranted false "op" sample
            (serve_connection "op" "pw"
              (filelist "/mc" (λ r. filecmd remove "/mc/data/x" "" (λ o. finished)))
              sample
              []).1)
serve_connection-AllGranted_example =
    serve_connection-AllGranted "op" "pw"
      (filelist "/mc" (λ r. filecmd remove "/mc/data/x" "" (λ o. finished))) sample

serve_request-AllGranted_example :
    ((Session.serve_request removing (some ("op", "pw")) "/dav/mc/data/x" sample []).1
      ≡ (config_get, sample_config) ∷ [])
    ⊎ ((user : String) × IsKnown (some ("op", "pw")) sample [] user
        × AllGranted true user sample
            (Session.serve_request removing (some ("op", "pw")) "/dav/mc/data/x" sample []).1)
serve_request-AllGranted_example =
    serve_request-AllGranted removing (some ("op", "pw")) "/dav/mc/data/x" sample

run_forwarders-configured_example :
    Fits (run_forwarders ([] ∷ sample_config.servers ∷ []) []).1 none_live
    × (replay (run_forwarders ([] ∷ sample_config.servers ∷ []) []).1 none_live "mc"
        ≡ configured "mc" sample_config.servers)
run_forwarders-configured_example =
    run_forwarders-configured "mc" ([] ∷ []) sample_config.servers (refl, (refl, tt))

main-Serves_example :
    Serves (services (prepare sample []).0) (main sample []).1
    × (launched (main sample []).1 ≡ services (prepare sample []).0)
    × (((main sample []).0 ≡ none) ↔ (http_address sample (started sample) ≡ ""))
main-Serves_example = main-Serves sample
