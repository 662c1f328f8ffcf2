-- ===== src/Tests/Sample.antt =====
-- A configuration and surroundings that answer every call: `mc` is a stopped container with one
-- mount and two backups, `web` runs and is for reading only.
use play_bin.Base.{String, true, false, none, some, [], ◌∷◌, ◌==◌, if◌then◌else◌}
use play_bin.Config.{UserConfig, ServerConfig, Config, no_server}
use play_bin.World.{
  Inspect, DirEntry, not_found, Result, ok, err, Env, config_get, config_reload, container_inspect,
  container_list, container_create, container_start, container_stop, container_kill,
  container_remove, container_attach, conn_write, exec_create, exec_attach, exec_drain,
  exec_inspect, parse_duration, sleep, local_time, make_dir_all, stat, file_info, read_dir, rsync,
  remove_file, remove_all, symlink, open_file, rename, log, keygen, read_file, parse_key, listen,
  docker_client, serve_http, other, interaction_defer, register_command, read_logs, follow_logs,
  shell_create, shell_attach, container_stats, decode_stats, virtual_memory, cpu_percent,
  ws_upgrade, ws_write, ctx_done, scan_line, log_rules, post_webhook, response_close, launch,
  reader_close, eof,
}
use play_bin.Json.{text, field, no_fields}

abbrev pub operator : UserConfig
operator = record {
  discord = "42";
  password = "pw";
  permissions = some (("mc", "container.*" ∷ "file.*" ∷ []) ∷ ("web", "container.read" ∷ []) ∷ []);
}

abbrev pub minecraft : ServerConfig
minecraft = record {
  working_dir = "/srv/mc";
  compose = none;
  commands = record {
    stop = some (record { kind = "sleep"; arg = "1s" } ∷ []);
    backup =
        record { kind = "attach"; arg = "save-off" }
        ∷ record { kind = "backup"; arg = "/srv/mc:/backup/mc" }
        ∷ [];
    message = none;
  };
  discord =
      some
        (record { token = ""; channel = ""; webhook = "https://hook"; log_setting = "log.json" });
}

abbrev pub sample_config : Config
sample_config = record {
  http_listen = ":8080";
  sftp_listen = ":2022";
  users = ("op", operator) ∷ [];
  servers = ("mc", minecraft) ∷ ("web", no_server) ∷ [];
}

abbrev pub stopped : Inspect
stopped = record {
  name = "/mc";
  running = false;
  tty = true;
  mounts = record { source = "/srv/mc"; destination = "/data" } ∷ [];
}

abbrev pub running : Inspect
running = record {
  name = "/web";
  running = true;
  tty = false;
  mounts = record { source = "/srv/web"; destination = "/www" } ∷ [];
}

abbrev folder : String → DirEntry
folder n = record { name = n; is_dir = true }

abbrev inspection : String → Result Inspect
inspection n = if n == "mc" then ok stopped else if n == "web" then ok running else err not_found

abbrev pub sample : Env
sample h config_get = sample_config
sample h config_reload = tt
sample h (container_inspect n) = inspection n
sample h container_list = ok (record { id = "1"; names = "/mc" ∷ []; state = "exited" } ∷ [])
sample h (container_create _ _ _) = ok tt
sample h (container_start _) = ok tt
sample h (container_stop _ _) = err not_found
sample h (container_kill _ _) = ok tt
sample h (container_remove _) = ok tt
sample h (container_attach _) = ok tt
sample h (conn_write _ _) = ok tt
sample h (exec_create _ _) = ok "e1"
sample h (exec_attach _) = ok tt
sample h (exec_drain _) = tt
sample h (exec_inspect _) = ok 0
sample h (parse_duration _) = some 1
sample h (sleep _) = tt
sample h local_time = "20240102-030405"
sample h (make_dir_all _) = ok tt
sample h (stat _) = ok tt
sample h (file_info n) = ok (record { name = n; is_dir = false })
sample h (read_dir _) =
    ok (folder "20240101-000000" ∷ folder "latest" ∷ folder "20240102-030405" ∷ [])
sample h (rsync _) = ok tt
sample h (remove_file _) = ok tt
sample h (remove_all _) = ok tt
sample h (symlink _ _) = ok tt
sample h (open_file _ _) = ok tt
sample h (rename _ _) = ok tt
sample h (log _) = tt
sample h (keygen _) = ok tt
sample h (read_file _) = ok "key"
sample h (parse_key bytes) = ok bytes
sample h (listen _) = ok tt
sample h docker_client = ok tt
sample h (serve_http _) = other "address in use"
sample h interaction_defer = ok tt
sample h (register_command _) = ok tt
sample h (read_logs _ _) = ok "log"
sample h (follow_logs _ _) = ok tt
sample h (shell_create _) = ok "s1"
sample h (shell_attach _) = ok tt
sample h (container_stats _) = ok tt
sample h decode_stats = ok (field "name" (text "mc") no_fields)
sample h virtual_memory = some (record { used_percent = "40"; total = 1000; available = 600 })
sample h cpu_percent = []
sample h ws_upgrade = ok tt
sample h (ws_write _) = err eof
sample h ctx_done = false
sample h scan_line = none
sample h (log_rules _) = []
sample h (post_webhook _ _) = ok tt
sample h response_close = tt
sample h (launch _) = tt
sample h reader_close = tt
