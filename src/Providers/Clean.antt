-- ===== src/Providers/Clean.antt =====
-- What `_sanitize_empty_content` of nanobot/providers/base.py leaves.
use eeebot_self_evolving.Prelude.{Bool, false, Option, none, some, ◌≡◌}
use eeebot_self_evolving.Prelude.Json.{Json, Items, Fields}
use eeebot_self_evolving.Runtime.Dict.{lookup, is_text}
use eeebot_self_evolving.Providers.Sanitize.{is_changed, any_changed}

abbrev changed_again : Option Json → Bool
changed_again none = false
changed_again (some v) = is_changed v

-- A content that a provider accepts: no empty text, and in a list no empty text block and no
-- "_meta", unless it is the list around a single dict.
pub data Accepted : Json → Type 0 where
  other :
      (c : Json)
      → is_text "" c ≡ false
      → ((items : Items) → c ≡ Json.arr items → any_changed items ≡ false)
      → Accepted c
  wrapped : (d : Fields) → Accepted (Json.arr (Items.cons (Json.obj d) Items.nil))

abbrev pub IsSendable : Fields → Type 0
IsSendable msg = Accepted (lookup "content" msg)

items_of : Json → Items
items_of (Json.arr items) = items
items_of _ = Items.nil
