-- ===== src/Discord/Embeds.antt =====
-- internal/discord/bot.go: the messages that answer an interaction, and the slash commands that the
-- bot registers.
use play_bin.Base.{
  ℕ, suc, ◌-◌, String, Bool, true, false, Option, none, some, List, [], ◌∷◌, leb, length, ◌<>◌,
  if◌then◌else◌,
}
use play_bin.Text.Decimal.{decimal}
use play_bin.World.{Error, error_text, ok, err, M, pure, call, ◌>>◌, register_command}
use play_bin.Discord.Commands.{Command, cmd_command, Response, finished, listed}

pub record Embed : Type 0 where
  pub color : ℕ
  pub title : String
  pub description : String

abbrev pub color_error : ℕ
color_error = 16722217

abbrev pub color_success : ℕ
color_success = 7258631

abbrev pub color_info : ℕ
color_info = 45311

-- `interactionErrorEmbed`
abbrev pub error_embed : String → Error → Embed
error_embed act e = record {
  color = color_error;
  title = "実行エラー: " <> act;
  description = error_text e;
}

-- `interactionSuccessEmbed`
abbrev pub success_embed : String → String → Embed
success_embed act desc = record {
  color = color_success;
  title = "実行成功: " <> act;
  description = desc;
}

-- The loop over the generations, of which the first twenty are shown.
unfoldable pub list_lines : ℕ → ℕ → List String → String
list_lines total idx [] = ""
list_lines total idx (g ∷ gs) =
    let rest = list_lines total (suc idx) gs in
    if leb 20 idx then "\n...他 " <> decimal (total - 20) <> " 件" else "`" <> g <> "`\n" <> rest

abbrev pub list_embed : String → List String → Embed
list_embed server [] = success_embed "backups" "バックアップが見つかりません"
list_embed server (g ∷ gs) = record {
  color = color_info;
  title = "バックアップ一覧: " <> server;
  description = list_lines (length (g ∷ gs)) 0 (g ∷ gs);
}

abbrev pub done_text : Command → String
done_text (cmd_command _) = "コマンドを送信しました"
done_text _ = "実行が完了しました"

-- What the deferred reply is edited to.
unfoldable pub embed_of : String → Command → Response → Option Embed
embed_of server command (finished act (err e)) = some (error_embed act e)
embed_of server command (finished act (ok _)) = some (success_embed act (done_text command))
embed_of server command (listed generations) = some (list_embed server generations)
embed_of server command _ = none

-- The reply to a user who lacks a permission.
abbrev pub denied_text : String → String
denied_text perm = "あなたにはこのサーバーに対する " <> perm <> " 権限がありません。"

pub record CommandOption : Type 0 where
  pub name : String
  pub required : Bool
  pub choices : List String

pub record SlashCommand : Type 0 where
  pub name : String
  pub options : List CommandOption

-- `commands` of `registerCommands`, without the descriptions.
abbrev pub slash_commands : List SlashCommand
slash_commands =
    record {
      name = "action";
      options =
          record {
            name = "type";
            required = true;
            choices = "start" ∷ "stop" ∷ "backup" ∷ "restore" ∷ "kill" ∷ "remove" ∷ [];
          }
          ∷ record { name = "generation"; required = false; choices = [] }
          ∷ [];
    }
    ∷ record { name = "backups"; options = [] }
    ∷ record {
      name = "cmd";
      options = record { name = "text"; required = true; choices = [] } ∷ [];
    }
    ∷ []

unfoldable pub register_all : List SlashCommand → M (Unit {0})
register_all [] = pure tt
register_all (c ∷ cs) = do call (register_command c.name); register_all cs

-- `registerCommands`, which only logs a failure.
abbrev pub register_commands : M (Unit {0})
register_commands = register_all slash_commands
