-- ===== src/Logger.antt =====
-- internal/logger/logger.go: the lines that the program prints, and the errors that go with them.
use play_bin.Base.{String, List, [], ◌∷◌, ◌<>◌}
use play_bin.World.{Error, fault, error_text, ok, err, Outcome}

-- `Log`: what it prints, at the time of the timestamp.
unfoldable pub log_line : String → String → String → String → String
log_line timestamp level service message =
    "[" <> timestamp <> "] [" <> level <> "] [" <> service <> "]: " <> message <> "\n"

-- `Internal`, `Client` and `External`
abbrev pub internal : String → String → String → String
internal timestamp service message = log_line timestamp "Internal" service message

abbrev pub client : String → String → String → String
client timestamp service message = log_line timestamp "Client" service message

abbrev pub external : String → String → String → String
external timestamp service message = log_line timestamp "External" service message

-- `Error`
unfoldable pub log_error : String → String → Outcome → List String
log_error timestamp service (ok _) = []
log_error timestamp service (err e) = internal timestamp service (error_text e) ∷ []

abbrev pub service_error : String → String → Error
service_error service message = fault ("[" <> service <> "] " <> message)

-- `InternalError`, `ClientError` and `ExternalError`, for a message that is formatted.
unfoldable pub internal_error : String → String → String → String × Error
internal_error timestamp service message =
    (internal timestamp service message, service_error service message)

unfoldable pub client_error : String → String → String → String × Error
client_error timestamp service message =
    (client timestamp service message, service_error service message)

unfoldable pub external_error : String → String → String → String × Error
external_error timestamp service message =
    (external timestamp service message, service_error service message)
