-- ===== src/Providers/Sanitize.antt =====
-- `_sanitize_empty_content`, `_sanitize_request_messages` and `_strip_image_content` of
-- nanobot/providers/base.py. A message is a dict with text keys.
use Prim.Native.String.{◌++◌ as concat}
use eeebot_self_evolving.Prelude.{
  Bool, false, ◌&&◌, ◌||◌, not, Option, none, some, String, List, [], ◌∷◌, map, str_eq,
  if◌then◌else◌,
}
use eeebot_self_evolving.Prelude.Json.{Json, Items, Fields}
use eeebot_self_evolving.Runtime.Dict.{lookup, assign, as_dict, is_true, is_text, dict}

abbrev pub has_key : String → Fields → Bool
has_key k Fields.end = false
has_key k (Fields.field j v rest) = str_eq j k || has_key k rest

-- `{k: v for k, v in d.items() if k != key}`
abbrev pub remove : String → Fields → Fields
remove k Fields.end = Fields.end
remove k (Fields.field j v rest) =
    let later = remove k rest in if str_eq j k then later else Fields.field j v later

-- A text block without a text.
unfoldable pub is_empty_text : Fields → Bool
is_empty_text d =
    (is_text "text" (lookup "type" d)
      || (is_text "input_text" (lookup "type" d) || is_text "output_text" (lookup "type" d)))
    && not (is_true (lookup "text" d))

-- What stays of an item; `none` drops it.
unfoldable pub clean_item : Json → Option Json
unfolding is_empty_text
clean_item (Json.obj d) =
    if is_empty_text d
    then none
    else some (Json.obj (if has_key "_meta" d then remove "_meta" d else d))
clean_item v = some v

-- Whether `clean_item` changes the item.
unfoldable pub is_changed : Json → Bool
unfolding is_empty_text
is_changed (Json.obj d) = is_empty_text d || has_key "_meta" d
is_changed _ = false

unfoldable pub clean_items : Items → Items
unfolding clean_item
clean_items Items.nil = Items.nil
clean_items (Items.cons v rest) = elim (clean_item v) [
  | none ↦ clean_items rest
  | some u ↦ Items.cons u (clean_items rest)
]

unfoldable pub any_changed : Items → Bool
unfolding is_changed
any_changed Items.nil = false
any_changed (Items.cons v rest) = is_changed v || any_changed rest

-- The content of a message that has none left.
unfoldable pub no_content : Fields → Json
no_content msg =
    if is_text "assistant" (lookup "role" msg) && is_true (lookup "tool_calls" msg)
    then Json.null
    else Json.str "(empty)"

abbrev pub content_or : Fields → Items → Json
content_or msg Items.nil = no_content msg
content_or msg (Items.cons v rest) = Json.arr (Items.cons v rest)

unfoldable pub clean_content : Json → Fields → Fields
unfolding clean_items any_changed no_content
clean_content (Json.str t) msg = if str_eq t "" then assign "content" (no_content msg) msg else msg
clean_content (Json.arr items) msg =
    if any_changed items then assign "content" (content_or msg (clean_items items)) msg else msg
clean_content (Json.obj d) msg = assign "content" (Json.arr (Items.cons (Json.obj d) Items.nil)) msg
clean_content _ msg = msg

unfoldable pub clean_message : Fields → Fields
unfolding clean_content
clean_message msg = clean_content (lookup "content" msg) msg

unfoldable pub sanitize_empty_content : List Fields → List Fields
unfolding clean_message
sanitize_empty_content messages = map clean_message messages

-- Only the keys that `allowed` lets through.
abbrev pub restrict : (String → Bool) → Fields → Fields
restrict allowed Fields.end = Fields.end
restrict allowed (Fields.field j v rest) =
    let later = restrict allowed rest in if allowed j then Fields.field j v later else later

unfoldable pub request_message : (String → Bool) → Fields → Fields
request_message allowed msg =
    let clean = restrict allowed msg in
    if is_text "assistant" (lookup "role" clean) && not (has_key "content" clean)
    then assign "content" Json.null clean
    else clean

unfoldable pub sanitize_request_messages : (String → Bool) → List Fields → List Fields
unfolding request_message
sanitize_request_messages allowed messages = map (request_message allowed) messages

abbrev pub is_image : Json → Bool
is_image (Json.obj d) = is_text "image_url" (lookup "type" d)
is_image _ = false

-- The placeholder, for a block whose `_meta` is a dict or falsy. A path that is no text is printed
-- by `show`.
abbrev pub placeholder : (Json → String) → Json → Json
placeholder show block =
    let path = lookup "path" (as_dict (lookup "_meta" (as_dict block))) in
    Json.obj (
      dict (
        ("type", Json.str "text")
        ∷ (
          "text",
          Json.str (
              if is_true path
              then concat "[image: " (concat (show path) "]")
              else "[image omitted]"),
        )
        ∷ []))

abbrev pub strip_items : (Json → String) → Items → Items
strip_items show Items.nil = Items.nil
strip_items show (Items.cons b rest) =
    Items.cons (if is_image b then placeholder show b else b) (strip_items show rest)

abbrev pub any_image : Items → Bool
any_image Items.nil = false
any_image (Items.cons b rest) = is_image b || any_image rest

abbrev pub items_or_nil : Json → Items
items_or_nil (Json.arr items) = items
items_or_nil _ = Items.nil

abbrev pub strip_message : (Json → String) → Fields → Fields
strip_message show msg = elim (lookup "content" msg) [
  | Json.arr items ↦ assign "content" (Json.arr (strip_items show items)) msg
  | _ ↦ msg
]

abbrev pub has_image : List Fields → Bool
has_image [] = false
has_image (msg ∷ rest) = any_image (items_or_nil (lookup "content" msg)) || has_image rest

-- `none` where no message has an image.
unfoldable pub strip_image_content : (Json → String) → List Fields → Option (List Fields)
strip_image_content show messages =
    if has_image messages then some (map (strip_message show) messages) else none
