-- ===== src/Webdav/Session.antt =====
-- internal/webdav/server.go: a request as a whole. What the WebDAV library does for a user is a
-- script: it calls the methods of its `FileSystem`, and goes on by what they answer.
mod Methods
pub mod Laws
use play_bin.Base.{ℕ, String, Bool, Option, List}
use play_bin.World.{OpenFlags, FileInfo, Result, Outcome, M, pure, ◌>>=◌}
use play_bin.Webdav.{
  mkdir, DavFile, open_dav_file, remove_all_dav, rename_dav, stat_dav, VirtualDir, readdir,
}
use play_bin.Webdav.Server.{DavReply, handler}

-- The methods of `vfsWebdavAdapter`, and `Readdir` of a virtual directory, for the name that the
-- library makes of the path of the URL.
pub data Script (A : Type 0) : Type 0 where
  finished : A → Script A
  call_mkdir : String → (Outcome → Script A) → Script A
  call_open : String → OpenFlags → (Result DavFile → Script A) → Script A
  call_remove_all : String → (Outcome → Script A) → Script A
  call_rename : String → String → (Outcome → Script A) → Script A
  call_stat : String → (Result FileInfo → Script A) → Script A
  call_readdir : Bool → String → ℕ → ℕ → (List FileInfo → Script A) → Script A

-- The script with the adapter, whose `getHandler` takes the user from the context.
unfoldable pub run_script : {A : Type 0} → String → Script A → M A
run_script user (finished a) = pure a
run_script user (call_mkdir name k) = do r ← mkdir user name; run_script user (k r)
run_script user (call_open name flag k) = do r ← open_dav_file user name flag; run_script user (k r)
run_script user (call_remove_all name k) = do r ← remove_all_dav user name; run_script user (k r)
run_script user (call_rename old new k) = do r ← rename_dav user old new; run_script user (k r)
run_script user (call_stat name k) = do r ← stat_dav user name; run_script user (k r)
run_script user (call_readdir is_root container_name offset count k) = do
  r ←
      readdir
        (record {
          user = user;
          is_root = is_root;
          container_name = container_name;
          offset = offset;
        })
        count
  run_script user (k r.0)

-- `Handler`, for what the library does with the rest of a path.
unfoldable pub serve_request :
    {A : Type 0} → (String → Script A) → Option (String × String) → String → M (DavReply A)
serve_request library basic path = handler (λ user rest. run_script user (library rest)) basic path
