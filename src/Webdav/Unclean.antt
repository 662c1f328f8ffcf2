-- ===== src/Webdav/Unclean.antt =====
-- internal/webdav/server.go: the write check reads the path as it was sent, `MapPath` the cleaned
-- one. The library takes the path of a `Destination` header as it was sent, too.
use mathlib.Core.List.{append-nil, reverse-reverse}
use play_bin.Base.{
  String, true, false, List, [], ◌∷◌, ◌==◌, head_text, ◌≡◌, ◌≢◌, ap, ◌∙◌, arith, eq_iff, All,
  reverse,
}
use play_bin.Text.{split, join}
use play_bin.Text.Paths.{slash, resolve, resolve_all, clean_parts, render}
use play_bin.Text.Paths.Laws.{IsPlain, split-join, resolve_all_of_IsPlain}
use play_bin.Text.Paths.Relative.{is_rooted-join}
use play_bin.Text.Paths.Cleaned.{IsName, dots-IsName, trim-render, Lacks-names}
use play_bin.Config.Permission.{file_write}
use play_bin.World.{ok, Trace, Env, config_get, remove_all}
use play_bin.Vfs.{path_parts, map_path}
use play_bin.Vfs.Confined.{path_parts-clean_parts}
use play_bin.Sftp.{first_part}
use play_bin.Sftp.Laws.{permits}
use play_bin.Webdav.{check_write_perm, remove_all_dav}

-- `a/../b/…`
abbrev pub detour : String → String → List String → String
detour a b rest = join "/" (a ∷ ".." ∷ b ∷ rest)

IsName_of_IsPlain : (ps : List String) → All IsPlain ps → All IsName ps
IsName_of_IsPlain [] _ = tt
IsName_of_IsPlain (p ∷ ps) (h, hs) = ((h.0, h.1, h.3), IsName_of_IsPlain ps hs)

module _ (a b : String) (rest : List String) (plain_a : IsPlain a)
    (plain : All IsPlain (b ∷ rest)) where
  names : All IsName (a ∷ ".." ∷ b ∷ rest)
  names = ((plain_a.0, plain_a.1, plain_a.3), (dots-IsName, IsName_of_IsPlain (b ∷ rest) plain))

  split-detour : split slash (detour a b rest) ≡ a ∷ ".." ∷ b ∷ rest
  split-detour = split-join (a ∷ ".." ∷ b ∷ rest) (cc) (Lacks-names (a ∷ ".." ∷ b ∷ rest) names)

  -- The check takes the first part as it was sent.
  pub first_part-detour : first_part (detour a b rest) ≡ a
  unfolding first_part render
  first_part-detour =
      ap (λ t. head_text (split slash t)) (trim-render false a (".." ∷ b ∷ rest) names)
      ∙ ap head_text split-detour

  resolve-detour : resolve_all false [] (a ∷ ".." ∷ b ∷ rest) ≡ resolve_all false [] (b ∷ rest)
  unfolding resolve_all resolve
  resolve-detour =
      ap (λ s. resolve_all false s (b ∷ rest))
        (ground (arith, eq_iff a "", eq_iff a ".", eq_iff a ".."))

  clean_parts-detour : clean_parts (detour a b rest) ≡ b ∷ rest
  unfolding clean_parts
  clean_parts-detour =
      rw
        (
          is_rooted-join a (".." ∷ b ∷ rest) plain_a,
          split-detour,
          resolve-detour,
          resolve_all_of_IsPlain false [] (b ∷ rest) plain,
          append-nil (reverse (b ∷ rest)),
        )
        (reverse-reverse (b ∷ rest))

  -- `MapPath` resolves the `..`.
  pub path_parts-detour : path_parts (detour a b rest) ≡ b ∷ rest
  path_parts-detour =
      path_parts-clean_parts (detour a b rest) (subst_ne clean_parts-detour) ∙ clean_parts-detour
    where
      subst_ne : clean_parts (detour a b rest) ≡ b ∷ rest → clean_parts (detour a b rest) ≢ []
      subst_ne e f = cc

check_write_perm_allowed :
    (user name a : String) (env : Env) (h : Trace)
    → first_part name ≡ a
    → a ≢ ""
    → permits env h user a file_write ≡ true
    → check_write_perm user name env h ≡ (ok tt, (config_get, env h config_get) ∷ h)
unfolding check_write_perm first_part
check_write_perm_allowed user name a env h first ne allowed =
    let full : (a == "") ≡ false = ground (arith, eq_iff a "") in rw (first, full, allowed)

-- The path `a/../b/…` passes the check with `file.write` on `a`, and then everything below the path
-- is removed that it names in the container `b`, also if the user lacks `file.write` there.
pub remove_all-detour :
    (user a b p : String) (rest : List String) (env : Env) (h h₁ : Trace)
    → IsPlain a
    → All IsPlain (b ∷ rest)
    → permits env h user a file_write ≡ true
    → permits env h user b file_write ≡ false
    → map_path user (detour a b rest) env ((config_get, env h config_get) ∷ h) ≡ (ok p, h₁)
    → (head_text (path_parts (detour a b rest)) ≡ b)
      × ((remove_all_dav user (detour a b rest) env h).1
          ≡ (remove_all p, env h₁ (remove_all p)) ∷ h₁)
unfolding remove_all_dav
remove_all-detour user a b p rest env h h₁ plain_a plain yes_a no_b mapped =
    let first = first_part-detour a b rest plain_a plain in
    (
      ap head_text (path_parts-detour a b rest plain_a plain),
      ground (arith, check_write_perm_allowed user (detour a b rest) a env h first plain_a.0 yes_a),
    )
