-- ===== src/Lib.antt =====
-- play-bin: the management of Docker containers by a web API, SFTP, WebDAV and Discord.
--
-- Parts, from the paths of the repository's root, and the files that model them:
--
--   internal/config/config.go       Config: the data; Config/Permission: `HasPermission` and
--                                   `matchRecursive`; Config/Loaded: the cache with `Get`, `Reload`
--   internal/docker/docker.go       Docker: `Init`, `SendCommand`, `SendExec`,
--                                   `ReadNullWriteCloser`
--   internal/container/container.go Container: `ExecuteAction`; Container/Lifecycle: `Start`,
--                                   `Stop`, `Kill`, `Remove`; Container/Archive: `Backup`,
--                                   `Restore`; Container/Generations: `ListBackupGenerations`;
--                                   Container/Engine: an abstract life cycle of a container;
--                                   Container/Restored: what a restore copies;
--                                   Container/RoundTrip: directories that are copied
--   internal/vfs/vfs.go             Vfs: `MapPath`; Vfs/Listing: the virtual directories
--   internal/sftp/server.go         Sftp: authentication, the request handlers, `ListAt`;
--                                   Sftp/Connections: `NewServer`, `Start`, `handleConn`;
--                                   Sftp/Session: a connection with all its requests
--   internal/webdav/server.go       Webdav: authentication, the file system, `Readdir`;
--                                   Webdav/Server: `Handler`; Webdav/Session: a request with
--                                   all that the library does for it; Files: where on the
--                                   host SFTP and WebDAV reach
--   internal/api                    Api/Auth: `Login`, `Auth`; Api/Handlers: the handlers;
--                                   Api/Listing: `ListContainers`; Api/Routes: the routes;
--                                   Api/Terminal: `TerminalHandler`, with the interleavings of
--                                   its goroutines in Api/Terminal/Link; Api/Stats:
--                                   `StatsHandler`; Api/AccessLog: `WithLogging`;
--                                   Api/Server: `NewServer`, `Routes` as a whole, `Start`
--   internal/discord                Discord/Forwarders: `SyncLogForwarders` and
--                                   `runLogForwarderManager`; Discord/Tail:
--                                   `tailContainerLogs`, `executeWebhook`; Discord/Placeholders:
--                                   `replacePlaceholders`; Discord/Rules: `getLogRules`;
--                                   Discord/Commands: `onInteractionCreate`,
--                                   `onMessageCreate`; Discord/Embeds: the answers and
--                                   `registerCommands`; Discord/Bots: `SyncBots`;
--                                   Discord/Manager: `NewBotManager`, `runBotManager`
--   internal/logger/logger.go       Logger: the lines and the errors
--   main.go                         Process: `main`
--
-- The web API, SFTP, WebDAV and Discord are the clients of the other parts: each finds the user, asks
-- `HasPermission`, and then calls the container manager or, through `MapPath`, the host's files.
--
-- World holds what the parts share. The Docker engine, the host's files, rsync and the clock are no
-- code of the repository: they are an `Env`, any function that answers a call from the calls made and
-- answered before it. What `Get` returns depends on the file at that time, so the parts that call it
-- take it as an answer, too; Config/Loaded says what it is. An operation is a function `M A` of an
-- `Env` and a `Trace`, and it adds its calls with their answers to the trace, the latest first. An
-- `Env` may answer as if other clients of the engine, other goroutines or an editor of the
-- configuration acted between two calls. Where a theorem needs a fact about the answers, the fact is
-- one of its hypotheses.
--
-- Go's maps are association lists in any order (Base/Dict), as `range` meets their entries; texts are
-- sequences of code points, and Go's slicing by bytes is used only after an ASCII character. An
-- optional pointer is an `Option`. Paths (Text/Paths) follow Go's documentation of `filepath.Clean`,
-- `Join` and `Rel`; Text/Splitting follows that of `strings.Split`, `SplitN`, `Trim`, `Fields` and
-- `ReplaceAll`. Random tokens and decoded JSON bodies are arguments of the handlers.
--
-- JSON values (Json) hold a number, a Boolean or null as the text that encodes it; a map's fields
-- stand in any order.
--
-- What a library does with the program's own functions is a script, a tree of calls that goes on by the
-- answers: the SFTP request server with the handlers of a user (Sftp/Session), and the WebDAV handler
-- with the file system (Webdav/Session). The file server, and WebDAV as the web server sees it, are
-- parameters of Api/Server. Theorems range over every script and every parameter.
--
-- The two goroutines of a terminal and its handler are a step relation on one state (Link), whose
-- moves come in any order; what a goroutine copies is left out. A goroutine ends when its source has
-- ended or is closed. Container/Engine reads off the trace what the engine was told last of a container,
-- with what Docker's documentation promises as hypotheses, and Container/RoundTrip reads the content of
-- directories off the trace, with what rsync's documentation says of its options as a hypothesis. A
-- goroutine that `main` starts is a call.
--
-- Fuel is used in Sftp/Paging and Webdav/Paging, for a client that reads a listing part by part: one
-- read for each item and one more is enough. The endless loops of Discord/Tail and Api/Stats take a
-- number of rounds: two rounds more than the calls until the context is cancelled are enough for the
-- first, one more than the calls until the statistics end for the second. All other loops run over a
-- list.
--
-- Not modelled: log lines of the program itself, except where a step of a stop sequence writes one
-- and in Logger and Api/AccessLog; locks and deadlines of contexts; the encoding of JSON replies; the
-- SSH, WebDAV and Discord protocols; the bytes that the WebSockets carry; the static pages; what is read
-- from and written to a file once it is open.
pub mod Base
pub mod Text
pub mod Config
pub mod Files
pub mod Json
pub mod World
pub mod Logger
pub mod Docker
pub mod Container
pub mod Vfs
pub mod Sftp
pub mod Webdav
pub mod Api
pub mod Discord
pub mod Process
pub mod Tests
