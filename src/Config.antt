-- ===== src/Config.antt =====
-- internal/config/config.go: the configuration as data. An optional field or a pointer is an
-- `Option`; a slice or map is an `Option` only where the program tells nil from empty.
pub mod Permission
pub mod Loaded
use play_bin.Base.{String, Option, none, List}
use play_bin.Base.Dict.{Dict}

pub record UserConfig : Type 0 where
  pub discord : String
  pub password : String
  pub permissions : Option (Dict (List String))

pub record StartConfig : Type 0 where
  pub entrypoint : String
  pub arguments : String

pub record NetworkConfig : Type 0 where
  pub mode : String
  pub mapping : Dict String

pub record ComposeConfig : Type 0 where
  pub image : String
  pub restart : String
  pub command : Option StartConfig
  pub network : NetworkConfig
  pub mount : Dict String

pub record CmdConfig : Type 0 where
  pub kind : String
  pub arg : String

pub record CommandsConfig : Type 0 where
  pub stop : Option (List CmdConfig)
  pub backup : List CmdConfig
  pub message : Option String

pub record DiscordConfig : Type 0 where
  pub token : String
  pub channel : String
  pub webhook : String
  pub log_setting : String

pub record ServerConfig : Type 0 where
  pub working_dir : String
  pub compose : Option ComposeConfig
  pub commands : CommandsConfig
  pub discord : Option DiscordConfig

pub record Config : Type 0 where
  pub http_listen : String
  pub sftp_listen : String
  pub users : Dict UserConfig
  pub servers : Dict ServerConfig

-- The zero value, which `cfg.Users[name]` gives for a missing name.
abbrev pub no_user : UserConfig
no_user = record { discord = ""; password = ""; permissions = none }

abbrev pub no_server : ServerConfig
no_server = record {
  working_dir = "";
  compose = none;
  commands = record { stop = none; backup = List.[]; message = none };
  discord = none;
}

abbrev pub empty_config : Config
empty_config = record { http_listen = ""; sftp_listen = ""; users = List.[]; servers = List.[] }
