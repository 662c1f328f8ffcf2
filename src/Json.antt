-- ===== src/Json.antt =====
-- Go's decoded JSON values (`any`), as `encoding/json` gives them. A number, a Boolean or null is
-- held as the text that encodes it. A map's fields stand in any order.
use play_bin.Base.{String}

mutual
  pub data Json : Type 0 where
    text : String → Json
    scalar : String → Json
    array : Items → Json
    object : Fields → Json

  pub data Items : Type 0 where
    no_items : Items
    item : Json → Items → Items

  pub data Fields : Type 0 where
    no_fields : Fields
    field : String → Json → Fields → Fields
