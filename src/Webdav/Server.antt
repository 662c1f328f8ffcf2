-- ===== src/Webdav/Server.antt =====
-- internal/webdav/server.go: `Handler`, which lets a request through to the WebDAV library. The
-- library's own handler is a parameter, for the user of the context and the path that is left.
pub mod Laws
use play_bin.Base.{String, Option, none, some}
use play_bin.Text.{strip_prefix}
use play_bin.World.{M, pure, ◌>>=◌}
use play_bin.Webdav.{authorize}

-- What becomes of a request.
pub data DavReply (A : Type 0) : Type 0 where
  -- 401, with the header that asks for a password
  unauthorized : DavReply A
  -- 404, by `http.StripPrefix`
  no_prefix : DavReply A
  -- what the library makes of it
  handled : A → DavReply A

module _ {A : Type 0} (library : String → String → M A) where
  -- `http.StripPrefix("/dav/", webdavHandler)`
  unfoldable pub stripped : String → String → M (DavReply A)
  stripped user path = elim (strip_prefix "/dav/" path) [
    | none ↦ pure no_prefix
    | some rest ↦ do done ← library user rest; pure (handled done)
  ]

  -- `Handler`, for what `r.BasicAuth()` reads and the path
  unfoldable pub handler : Option (String × String) → String → M (DavReply A)
  unfolding stripped
  handler basic path = do
    user ← authorize basic
    elim user [ none ↦ pure unauthorized | some name ↦ stripped name path ]
