-- ===== src/Text/Splitting.antt =====
-- `strings.Split`, `SplitN` for two parts, `Join`, `Trim`, `Fields` and `ReplaceAll`.
use Prim.Native.String
use play_bin.Base.{
  ℕ, zero, suc, Char, code, String, Bool, ◌&&◌, ◌||◌, Option, none, some, List, [], ◌∷◌, ◌==◌, eqb,
  if◌then◌else◌, ◌<>◌, ◌≡◌, refl, ◌≢◌, arith, All,
}

-- One more character at the front of the first part.
abbrev pub push_front : Char → List String → List String
push_front c [] = (String.◌∷◌ c "") ∷ []
push_front c (p ∷ ps) = (String.◌∷◌ c p) ∷ ps

-- `strings.Split(s, sep)` for a separator of one character.
unfoldable pub split : ℕ → String → List String
split sep String.[] = "" ∷ []
split sep (String.◌∷◌ c s) =
    let parts = split sep s in if eqb (code c) sep then "" ∷ parts else push_front c parts

-- `strings.SplitN(s, sep, 2)`: what stands before and after the first separator, if there is one.
unfoldable pub split_once : ℕ → String → Option (String × String)
split_once sep String.[] = none
split_once sep (String.◌∷◌ c s) =
    let rest = split_once sep s in
    if eqb (code c) sep
    then some ("", s)
    else elim rest [ none ↦ none | some (a, b) ↦ some (String.◌∷◌ c a, b) ]

-- `strings.Join(parts, sep)`
unfoldable pub join : String → List String → String
join sep [] = ""
join sep (p ∷ []) = p
join sep (p ∷ q ∷ ps) = p <> sep <> join sep (q ∷ ps)

abbrev pub trim_left : ℕ → String → String
trim_left c String.[] = ""
trim_left c (String.◌∷◌ d s) =
    let rest = trim_left c s in if eqb (code d) c then rest else String.◌∷◌ d s

abbrev pub trim_right : ℕ → String → String
trim_right c String.[] = ""
trim_right c (String.◌∷◌ d s) =
    let rest = trim_right c s in if eqb (code d) c && rest == "" then "" else String.◌∷◌ d rest

-- `strings.Trim(s, c)` for a cutset of one character.
unfoldable pub trim : ℕ → String → String
trim c s = trim_right c (trim_left c s)

abbrev is_space : ℕ → Bool
is_space c = eqb c 32 || eqb c 9 || eqb c 10 || eqb c 11 || eqb c 12 || eqb c 13

-- The fields of a text, with the field that its front belongs to, empty at a space.
fields_from : String → String × List String
fields_from String.[] = ("", [])
fields_from (String.◌∷◌ c s) =
    let (word, words) = fields_from s in
    if is_space (code c)
    then ("", if word == "" then words else word ∷ words)
    else (String.◌∷◌ c word, words)

-- `strings.Fields(s)`, for the ASCII spaces.
unfoldable pub fields : String → List String
unfolding fields_from
fields s = let (word, words) = fields_from s in if word == "" then words else word ∷ words

-- What follows the text `p` at the front of `s`.
unfoldable pub strip_prefix : String → String → Option String
strip_prefix String.[] s = some s
strip_prefix (String.◌∷◌ c p) String.[] = none
strip_prefix (String.◌∷◌ c p) (String.◌∷◌ d s) =
    let rest = strip_prefix p s in if eqb (code c) (code d) then rest else none

-- `strings.ReplaceAll(s, old, new)` for a text `old` that is not empty. The skip counts the
-- characters of a match that were already replaced.
unfoldable pub replace_from : ℕ → String → String → ℕ → String → String
replace_from n old new skip String.[] = ""
replace_from n old new (suc skip) (String.◌∷◌ c s) = replace_from n old new skip s
replace_from n old new zero (String.◌∷◌ c s) =
    let plain = String.◌∷◌ c (replace_from n old new zero s) in
    let taken = new <> replace_from n old new n s in
    elim (strip_prefix old (String.◌∷◌ c s)) [ none ↦ plain | some _ ↦ taken ]

abbrev pub count_pred : String → ℕ
count_pred String.[] = 0
count_pred (String.◌∷◌ c s) = String.count s

unfoldable pub replace_all : String → String → String → String
unfolding replace_from strip_prefix
replace_all s old new = replace_from (count_pred old) old new 0 s

-- No part holds the separator.
abbrev pub Lacks : ℕ → String → Type 0
Lacks sep String.[] = Unit
Lacks sep (String.◌∷◌ c s) = (code c ≢ sep) × Lacks sep s

push_front-Lacks :
    (sep : ℕ) (c : Char) (ps : List String)
    → code c ≢ sep
    → All (Lacks sep) ps
    → All (Lacks sep) (push_front c ps)
push_front-Lacks sep c [] h _ = ((h, tt), tt)
push_front-Lacks sep c (p ∷ ps) h (hp, hs) = ((h, hp), hs)

pub split-Lacks : (sep : ℕ) (s : String) → All (Lacks sep) (split sep s)
unfolding split
split-Lacks sep String.[] = (tt, tt)
split-Lacks sep (String.◌∷◌ c s) =
    ground (arith, split-Lacks sep s, push_front-Lacks sep c (split sep s))

pub split-ne-nil : (sep : ℕ) (s : String) → split sep s ≢ []
unfolding split
split-ne-nil sep String.[] = cc
split-ne-nil sep (String.◌∷◌ c s) = ground (arith, split-ne-nil sep s)

-- A text without the separator is its own only part.
pub split_of_Lacks : (sep : ℕ) (s : String) → Lacks sep s → split sep s ≡ s ∷ []
unfolding split
split_of_Lacks sep String.[] _ = refl
split_of_Lacks sep (String.◌∷◌ c s) (hc, hs) = rw (split_of_Lacks sep s hs) (ground arith)

split_tests :
    (split b'.' "a.b..c" ≡ "a" ∷ "b" ∷ "" ∷ "c" ∷ [])
    × (split b'.' "" ≡ "" ∷ [])
    × (split_once b':' "a:b:c" ≡ some ("a", "b:c"))
    × (trim b'/' "//a/b/" ≡ "a/b")
    × (fields " java -jar  x.jar\n" ≡ "java" ∷ "-jar" ∷ "x.jar" ∷ [])
    × (join "/" ("a" ∷ "b" ∷ "c" ∷ []) ≡ "a/b/c")
    × (replace_all "<${u}> ${u}$" "${u}" "ann" ≡ "<ann> ann$")
    × (replace_all "aaaa" "aa" "b" ≡ "bb")
unfolding split split_once trim fields join replace_all
split_tests = (refl, refl, refl, refl, refl, refl, refl, refl)
