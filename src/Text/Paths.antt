-- ===== src/Text/Paths.antt =====
-- `filepath.Clean`, `filepath.Join` of two elements and `filepath.Rel`, on Unix: lexically, over
-- the parts between slashes.
pub mod Laws
pub mod Relative
pub mod Cleaned
use Prim.Native.String
use play_bin.Base.{
  ℕ, zero, suc, code, String, Bool, true, false, ◌&&◌, ◌||◌, not, Option, none, some, List, [], ◌∷◌,
  ◌++◌, reverse, ◌==◌, eqb, if◌then◌else◌, ◌<>◌, ◌≡◌, refl,
}
use play_bin.Text.Splitting.{split, join}

abbrev pub slash : ℕ
slash = b'/'

abbrev pub is_rooted : String → Bool
is_rooted String.[] = false
is_rooted (String.◌∷◌ c s) = eqb (code c) slash

-- `..` takes the last part away. At the root it is dropped, and at the front of a relative path it
-- stays. The parts kept so far have the last one at the head.
unfoldable pub step_up : Bool → List String → List String
step_up true [] = []
step_up false [] = ".." ∷ []
step_up rooted (top ∷ rest) = if top == ".." then ".." ∷ top ∷ rest else rest

-- One part of the path.
unfoldable pub resolve : Bool → List String → String → List String
unfolding step_up
resolve rooted stack part =
    if part == "" || part == "."
    then stack
    else if part == ".."
    then step_up rooted stack
    else part ∷ stack

unfoldable pub resolve_all : Bool → List String → List String → List String
resolve_all rooted stack [] = stack
resolve_all rooted stack (part ∷ parts) = resolve_all rooted (resolve rooted stack part) parts

-- The parts of the cleaned path.
unfoldable pub clean_parts : String → List String
unfolding resolve_all resolve split
clean_parts path = reverse (resolve_all (is_rooted path) [] (split slash path))

-- A path from its cleaned parts.
unfoldable pub render : Bool → List String → String
unfolding join
render true parts = "/" <> join "/" parts
render false [] = "."
render false (p ∷ ps) = join "/" (p ∷ ps)

-- `filepath.Clean(path)`
unfoldable pub clean : String → String
clean path = render (is_rooted path) (clean_parts path)

-- `filepath.Join(a, b)`: empty elements are left out, and the rest is cleaned.
unfoldable pub join_path : String → String → String
join_path a b =
    if a == ""
    then if b == "" then "" else clean b
    else if b == ""
    then clean a
    else clean (a <> "/" <> b)

-- What is left of the two lists after their common front.
unfoldable pub strip_common : List String → List String → List String × List String
strip_common [] ts = ([], ts)
strip_common (b ∷ bs) [] = (b ∷ bs, [])
strip_common (b ∷ bs) (t ∷ ts) =
    let rest = strip_common bs ts in if b == t then rest else (b ∷ bs, t ∷ ts)

-- One `..` for each part of the base that is left.
ups : List String → List String
ups [] = []
ups (_ ∷ bs) = ".." ∷ ups bs

rel_from : List String × List String → String
rel_from ([], ts) = join "/" ts
rel_from (b ∷ bs, ts) = if b == ".." then "" else join "/" (ups (b ∷ bs) ++ ts)

-- `rel, _ := filepath.Rel(base, targ)`: the empty text where Go returns an error.
unfoldable pub rel_path : String → String → String
unfolding strip_common ups rel_from
rel_path base targ =
    if clean base == clean targ
    then "."
    else if (is_rooted base && not (is_rooted targ)) || (not (is_rooted base) && is_rooted targ)
    then ""
    else rel_from (strip_common (clean_parts base) (clean_parts targ))

path_tests :
    (clean "/a//b/./../c/" ≡ "/a/c")
    × (clean "" ≡ ".")
    × (clean "/.." ≡ "/")
    × (clean "../../a/../b" ≡ "../../b")
    × (clean "a/.." ≡ ".")
    × (join_path "/srv/mc" "world/../x" ≡ "/srv/mc/x")
    × (join_path "" "x" ≡ "x")
    × (rel_path "data" "data/world/x" ≡ "world/x")
    × (rel_path "data" "data" ≡ ".")
    × (rel_path "a/b" "a/c" ≡ "../c")
    × (rel_path "a" "/a" ≡ "")
unfolding clean_parts render clean join_path rel_path
path_tests = (refl, refl, refl, refl, refl, refl, refl, refl, refl, refl, refl)
