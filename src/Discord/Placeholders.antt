-- ===== src/Discord/Placeholders.antt =====
-- internal/discord/forwarder.go: `replacePlaceholders`.
pub mod Laws
use play_bin.Base.{ℕ, zero, suc, String, List, [], ◌∷◌, ◌<>◌, ◌≡◌, refl}
use play_bin.Json.{
  Json, text, scalar, array, object, Items, no_items, item, Fields, no_fields, field,
}
use play_bin.Text.{replace_all}
use play_bin.Text.Decimal.{decimal}

abbrev pub placeholder : ℕ → String
placeholder i = "$" <> decimal i

-- The loop over the captured groups, from the `i`-th on.
unfoldable pub replace_groups : ℕ → List String → String → String
replace_groups i [] v = v
replace_groups i (m ∷ matches) v = replace_groups (suc i) matches (replace_all v (placeholder i) m)

-- The case of a text
unfoldable pub replace_text : List String → String → String → String
replace_text matches server v = replace_groups 0 matches (replace_all v "${server}" server)

unfoldable mutual
  pub replace_placeholders : List String → String → Json → Json
  replace_placeholders matches server (text v) = text (replace_text matches server v)
  replace_placeholders matches server (object fs) = object (replace_fields matches server fs)
  replace_placeholders matches server (array xs) = array (replace_items matches server xs)
  replace_placeholders matches server (scalar v) = scalar v

  pub replace_fields : List String → String → Fields → Fields
  replace_fields matches server no_fields = no_fields
  replace_fields matches server (field k x fs) =
      field k (replace_placeholders matches server x) (replace_fields matches server fs)

  pub replace_items : List String → String → Items → Items
  replace_items matches server no_items = no_items
  replace_items matches server (item x xs) =
      item (replace_placeholders matches server x) (replace_items matches server xs)
