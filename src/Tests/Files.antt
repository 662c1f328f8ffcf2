-- ===== src/Tests/Files.antt =====
-- internal/vfs, internal/sftp and internal/webdav: concrete runs and instances.
use mathlib.Core.List.{Memᴰ}
use native.Mathlib.Omega.{arith}
use play_bin.Base.{
  String, true, false, List, [], ◌∷◌, ◌++◌, ◌==◌, ◌≡◌, ◌≢◌, refl, head_text, eq_iff, All,
}
use play_bin.Base.Dict.{lookup}
use play_bin.Text.{split, trim, Lacks}
use play_bin.Text.Paths.{slash, clean, join_path, rel_path, is_rooted, render, clean_parts}
use play_bin.Text.Paths.Laws.{IsPlain}
use play_bin.Config.Permission.{has_permission}
use play_bin.World.{
  FileInfo, OpenFlags, Mount, Trace, ok, err, permission, config_get, container_inspect, rename,
  remove_all,
}
use play_bin.World.Laws.{mutations}
use play_bin.Vfs.{path_parts, find_mount, map_below, check_container, map_parts, map_path}
use play_bin.Vfs.Confined.{map_path_confined}
use play_bin.Sftp.{first_part, file_write_request, file_cmd, mkdir, rename_method}
use play_bin.Sftp.Laws.{writing_denied, rename_into_read_only}
use play_bin.Webdav
use play_bin.Webdav.{authorize, open_dav_file, remove_all_dav, rename_dav}
use play_bin.Webdav.Laws.{writing_denied_dav}
use play_bin.Webdav.Unclean.{detour, remove_all-detour}
use play_bin.Tests.Sample.{sample, sample_config}

opened : Unit {0}
unfolding lookup split trim clean join_path rel_path clean_parts render has_permission path_parts
    find_mount map_below check_container map_parts map_path first_part
opened = tt

map_path_tests :
    ((map_path "op" "/mc/data/a/../b" sample []).0 ≡ ok "/srv/mc/b")
    × ((map_path "op" "/mc/../web/www" sample []).0 ≡ ok "/srv/web")
    × ((map_path "guest" "/mc/data" sample []).0 ≡ err permission)
unfolding opened
map_path_tests = (refl, refl, refl)

abbrev asked : Trace
asked = (config_get, sample_config) ∷ []

differs : (a b : String) → (a == b) ≡ false → a ≢ b
differs a b h = ground (arith, eq_iff a b)

map_path_confined_example :
    (m : Mount) × (rest : List String) × Memᴰ m
      (record { source = "/srv/mc"; destination = "/data" } ∷ [])
    × All IsPlain rest
    × ("/srv/mc/b" ≡ render (is_rooted m.source) (clean_parts m.source ++ rest))
unfolding opened
map_path_confined_example =
    map_path_confined "op" "/mc/data/a/../b" sample [] "/srv/mc/b"
      (record {
        name = "/mc";
        running = false;
        tty = true;
        mounts = record { source = "/srv/mc"; destination = "/data" } ∷ [];
      })
      refl (differs "mc" ".." refl) refl (differs "/srv/mc" "" refl, tt)

writing_denied_example :
    (file_write_request "op" "/web/www/x" sample [] ≡ (err permission, asked))
    × (file_cmd "op" mkdir "/web/www/x" "" sample [] ≡ (err permission, asked))
unfolding opened
writing_denied_example = writing_denied "op" "/web/www/x" "" mkdir sample [] refl refl

after : String → Trace → Trace
after name h =
    (container_inspect name, sample h (container_inspect name)) ∷ (config_get, sample_config) ∷ h

rename_into_read_only_example :
    (file_cmd "op" rename_method "/mc/data/a" "/web/www/b" sample []).1
    ≡ (rename "/srv/mc/a" "/srv/web/b", ok tt) ∷ after "web" (after "mc" asked)
unfolding opened after
rename_into_read_only_example =
    rename_into_read_only "op" "/mc/data/a" "/web/www/b" "/srv/mc/a" "/srv/web/b" sample []
      (after "mc" asked) (after "web" (after "mc" asked)) refl refl refl refl

abbrev file : String → FileInfo
file n = record { name = n; is_dir = false }

abbrev create_flag : OpenFlags
create_flag = record { wronly = false; rdwr = true; append = false; create = true; trunc = true }

writing_denied_dav_example :
    (mutations (Webdav.mkdir "op" "/web/www/x" sample []).1 ≡ mutations [])
    × (mutations (remove_all_dav "op" "/web/www/x" sample []).1 ≡ mutations [])
    × (mutations (open_dav_file "op" "/web/www/x" create_flag sample []).1 ≡ mutations [])
    × (mutations (rename_dav "op" "/web/www/x" "/mc/data/y" sample []).1 ≡ mutations [])
    × (mutations (rename_dav "op" "/mc/data/y" "/web/www/x" sample []).1 ≡ mutations [])
unfolding opened
writing_denied_dav_example =
    writing_denied_dav "op" "/web/www/x" "/mc/data/y" create_flag sample [] (λ h. refl) refl

plain :
    (p : String)
    → (p == "") ≡ false
    → (p == ".") ≡ false
    → (p == "..") ≡ false
    → Lacks slash p
    → IsPlain p
plain p a b c d = (differs p "" a, differs p "." b, differs p ".." c, d)

remove_all-detour_example :
    (head_text (path_parts (detour "mc" "web" ("www" ∷ "x" ∷ []))) ≡ "web")
    × ((remove_all_dav "op" (detour "mc" "web" ("www" ∷ "x" ∷ [])) sample []).1
        ≡ (remove_all "/srv/web/x", ok tt) ∷ after "web" asked)
unfolding opened after
remove_all-detour_example =
    remove_all-detour "op" "mc" "web" "/srv/web/x" ("www" ∷ "x" ∷ []) sample [] (after "web" asked)
      (plain "mc" refl refl refl (ground arith, (ground arith, tt)))
      (
        plain "web" refl refl refl (ground arith, (ground arith, (ground arith, tt))),
        (
          plain "www" refl refl refl (ground arith, (ground arith, (ground arith, tt))),
          (plain "x" refl refl refl (ground arith, tt), tt),
        ),
      )
      refl refl refl

abbrev shelf : List FileInfo
shelf =
    record { name = "a"; is_dir = true }
    ∷ record { name = "b"; is_dir = true }
    ∷ record { name = "c"; is_dir = false }
    ∷ []
