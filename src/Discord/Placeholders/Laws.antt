-- ===== src/Discord/Placeholders/Laws.antt =====
-- internal/discord/forwarder.go: what the placeholders of a payload are replaced by.

use package.text.Mathlib.TextLemmas.{nil-append, cons-append}
use play_bin.Base.{
  ℕ, suc, ◌+◌, ◌<◌, Char, code, String, List, [], ◌∷◌, ◌++◌, length, ◌<>◌, ◌≡◌, refl, ap, ◌∙◌,
  arith,
}
use play_bin.Json.{
  Json, text, scalar, array, object, Items, no_items, item, Fields, no_fields, field,
}
use play_bin.Text.{
  Lacks, Lacks-append, replace_all, replace_all_absent, replace_all_other, replace_all_same,
}
use play_bin.Text.Decimal.{decimal, decimal-char}
use play_bin.Discord.Placeholders.{
  placeholder, replace_groups, replace_text, replace_placeholders, replace_fields, replace_items,
}

abbrev dollar : Char
dollar = "$"

-- The text lacks the sign that a placeholder begins with.
abbrev pub Plain : String → Type 0
Plain v = Lacks b'$' v

marked : (s : String) → "$" <> s ≡ String.◌∷◌ dollar s
marked s = cons-append dollar "" s ∙ ap (String.◌∷◌ dollar) (nil-append s)

replace_groups_absent :
    (i : ℕ) (matches : List String) (v : String) → Plain v → replace_groups i matches v ≡ v
unfolding replace_groups
replace_groups_absent i [] v lacks = refl
replace_groups_absent i (m ∷ matches) v lacks =
    ap (λ p. replace_groups (suc i) matches (replace_all v p m)) (marked (decimal i))
    ∙ ap (replace_groups (suc i) matches) (replace_all_absent dollar (decimal i) m v lacks)
    ∙ replace_groups_absent (suc i) matches v lacks

replace_text_absent :
    (matches : List String) (server v : String) → Plain v → replace_text matches server v ≡ v
unfolding replace_text
replace_text_absent matches server v lacks =
    ap (replace_groups 0 matches) (replace_all_absent dollar "{server}" server v lacks)
    ∙ replace_groups_absent 0 matches v lacks

-- The placeholder of a group below ten.
marked_digit :
    (i : ℕ)
    → i < 10
    → (c : Char) × (code c ≡ 48 + i) × (placeholder i ≡ String.◌∷◌ dollar (String.◌∷◌ c ""))
marked_digit i small =
    let (c, same, place) = decimal-char i small in
    (c, place, marked (decimal i) ∙ ap (String.◌∷◌ dollar) same)

module _ (front back g : String) (after : List String) (before_mark : Plain front)
    (behind : Plain back) (captured : Plain g) where
  -- The placeholder `$` with one character, between two texts.
  around : Char → String
  around c = front <> String.◌∷◌ dollar (String.◌∷◌ c back)

  replace_groups_reach :
      (k : ℕ) (before : List String) (c : Char)
      → k + length before < 10
      → code c ≡ 48 + (k + length before)
      → replace_groups k (before ++ g ∷ after) (around c) ≡ front <> g <> back
  unfolding replace_groups around
  replace_groups_reach k [] c small place =
      let (e, digit, mark) = marked_digit k (omega arith) in
      ap (λ p. replace_groups (suc k) after (replace_all (around c) p g)) mark
      ∙ ap (replace_groups (suc k) after) (
          replace_all_same dollar e c g front back (omega (arith, digit, place)) before_mark behind)
      ∙ replace_groups_absent (suc k) after (front <> g <> back) (
          Lacks-append b'$' front (g <> back) before_mark
            (Lacks-append b'$' g back captured behind))
  replace_groups_reach k (m ∷ before) c small place =
      let (e, digit, mark) = marked_digit k (omega arith) in
      ap (λ p. replace_groups (suc k) (before ++ g ∷ after) (replace_all (around c) p m)) mark
      ∙ ap (replace_groups (suc k) (before ++ g ∷ after)) (
          replace_all_other dollar e c "" m front back (omega (arith, digit, place)) before_mark
            (omega (arith, place), behind))
      ∙ replace_groups_reach (suc k) before c (omega arith) (omega arith)

-- A text with one placeholder, for a group below ten, becomes the text with that group in its place,
-- whatever the other groups are, if neither the group nor the rest of the text holds a dollar sign.
-- The rest may go on with digits: in a text with no other dollar sign, `$10` gives the group 1 and
-- a zero, also if there is a group 10.
pub replace_text-group :
    (before after : List String) (g server front back : String)
    → length before < 10
    → Plain front
    → Plain g
    → Plain back
    → replace_text (before ++ g ∷ after) server (front <> placeholder (length before) <> back)
      ≡ front <> g <> back
unfolding replace_text around
replace_text-group before after g server front back small before_mark captured behind =
    let (c, digit, mark) = marked_digit (length before) small in
    let named : placeholder (length before) <> back ≡ String.◌∷◌ dollar (String.◌∷◌ c back) =
      ap (λ p. p <> back) mark
      ∙ cons-append dollar (String.◌∷◌ c "") back
      ∙ ap (String.◌∷◌ dollar) (cons-append c "" back ∙ ap (String.◌∷◌ c) (nil-append back)) in
    ap (λ v. replace_groups 0 (before ++ g ∷ after) (replace_all (front <> v) "${server}" server))
      named
    ∙ ap (replace_groups 0 (before ++ g ∷ after)) (
        replace_all_other dollar "{" c "server}" server front back (omega arith) before_mark
          (omega arith, behind))
    ∙ replace_groups_reach front back g after before_mark behind captured 0 before c (omega arith)
        (omega arith)

-- No text of the payload holds a dollar sign; the keys of a map may.
unfoldable mutual
  pub PlainJson : Json → Type 0
  PlainJson (text v) = Plain v
  PlainJson (scalar v) = Unit
  PlainJson (array xs) = PlainItems xs
  PlainJson (object fs) = PlainFields fs

  pub PlainItems : Items → Type 0
  PlainItems no_items = Unit
  PlainItems (item x xs) = PlainJson x × PlainItems xs

  pub PlainFields : Fields → Type 0
  PlainFields no_fields = Unit
  PlainFields (field k x fs) = PlainJson x × PlainFields fs

mutual
  unfolding replace_placeholders PlainJson

  kept_json :
      (matches : List String) (server : String) (x : Json)
      → PlainJson x
      → replace_placeholders matches server x ≡ x
  kept_json matches server (text v) plain = ap text (replace_text_absent matches server v plain)
  kept_json matches server (scalar v) plain = refl
  kept_json matches server (array xs) plain = ap array (kept_items matches server xs plain)
  kept_json matches server (object fs) plain = ap object (kept_fields matches server fs plain)

  kept_items :
      (matches : List String) (server : String) (xs : Items)
      → PlainItems xs
      → replace_items matches server xs ≡ xs
  kept_items matches server no_items plain = refl
  kept_items matches server (item x xs) (here, later) =
      ap (λ y. item y (replace_items matches server xs)) (kept_json matches server x here)
      ∙ ap (item x) (kept_items matches server xs later)

  kept_fields :
      (matches : List String) (server : String) (fs : Fields)
      → PlainFields fs
      → replace_fields matches server fs ≡ fs
  kept_fields matches server no_fields plain = refl
  kept_fields matches server (field k x fs) (here, later) =
      ap (λ y. field k y (replace_fields matches server fs)) (kept_json matches server x here)
      ∙ ap (field k x) (kept_fields matches server fs later)

-- A payload none of whose texts holds a dollar sign is sent as it stands, whatever was captured.
pub replace_placeholders_plain :
    (matches : List String) (server : String) (payload : Json)
    → PlainJson payload
    → replace_placeholders matches server payload ≡ payload
replace_placeholders_plain matches server payload plain = kept_json matches server payload plain
