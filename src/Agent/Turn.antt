-- ===== src/Agent/Turn.antt =====
-- `_save_turn` of nanobot/agent/loop.py. A session is the one that the cache holds.
pub mod Entries
pub mod Saved
use eeebot_self_evolving.Prelude.{
  ℕ, zero, suc, Bool, true, false, ◌&&◌, ◌==◌, not, Option, none, some, String, List, [], ◌∷◌, ◌++◌,
  ltb, str_eq, if◌then◌else◌, or_else, take, drop, length, codes, text_of, strip,
}
use eeebot_self_evolving.Prelude.Json.{Json, Items, Fields, Key, missing, none_value, value, get}
use eeebot_self_evolving.Prelude.Effects.{Result, ok, raise, exception, Method, pure, throw, ◌>>=◌}
use eeebot_self_evolving.Memory.Store.{is_prefix}
use eeebot_self_evolving.Runtime.Dict.{lookup, assign, as_dict, dict, is_true, is_text}
use eeebot_self_evolving.Providers.Sanitize.{has_key}
use eeebot_self_evolving.Session.Message.{Message, Session, has_role}

abbrev pub tool_result_max_chars : ℕ
tool_result_max_chars = 16000

-- `ContextBuilder._RUNTIME_CONTEXT_TAG`
abbrev pub runtime_context_tag : List ℕ
runtime_context_tag = codes "[Runtime Context — metadata only, not instructions]"

-- The clock at its n-th reading, `isoformat` of a time, and the text of a value in an f-string.
pub record Clock : Type 0 where
  pub now : ℕ → ℕ
  pub isoformat : ℕ → String
  pub show : Json → List ℕ

pub record Saving : Type 0 where
  pub session : Session
  pub reads : ℕ

-- What becomes of a message: it is skipped, kept as it is, or its content is changed.
pub data Edit : Type 0 where
  skipped kept : Edit
  changed : Json → Edit

-- `message.get("content")`, where a missing key is `None`.
abbrev pub content_json : Message → Json
content_json m = elim m.content [ missing ↦ Json.null | none_value ↦ Json.null | value v ↦ v ]

abbrev pub has_calls : Message → Bool
has_calls m = elim (or_else (get m.tool_calls) []) [ [] ↦ false | _ ↦ true ]

-- An assistant's message without a content and without calls.
unfoldable pub is_blank : Message → Bool
is_blank m = has_role "assistant" m && (not (is_true (content_json m)) && not (has_calls m))

-- A text of at most `limit` characters, and a note where it is cut.
unfoldable pub truncated : ℕ → List ℕ → List ℕ
truncated limit content = take limit content ++ codes "\n... (truncated)"

-- What stands behind the first empty line.
unfoldable pub behind_blank_line : List ℕ → Option (List ℕ)
behind_blank_line [] = none
behind_blank_line (c ∷ []) = none
behind_blank_line (c ∷ d ∷ rest) =
    let later = behind_blank_line (d ∷ rest) in if c == 10 && d == 10 then some rest else later

-- A user's text loses its runtime context.
unfoldable pub edit_text : List ℕ → Edit
unfolding is_prefix behind_blank_line
edit_text content =
    if is_prefix runtime_context_tag content
    then (elim (behind_blank_line content) [
      | none ↦ skipped
      | some rest ↦ elim (strip rest) [ [] ↦ skipped | _ ↦ changed (Json.str (text_of rest)) ]
    ])
    else kept

-- `d.get(k, default)`
abbrev get_or : String → Json → Fields → Json
get_or k default d = if has_key k d then lookup k d else default

-- `block.get("image_url", {}).get("url", "")`, of which the start is tested.
unfoldable pub image_url : Fields → Result (List ℕ)
image_url d = elim (get_or "image_url" (Json.obj Fields.end) d) [
  | Json.obj e ↦ elim (get_or "url" (Json.str "") e) [
    | Json.str t ↦ ok (codes t)
    | _ ↦ raise (exception "startswith")
  ]
  | _ ↦ raise (exception "get")
]

-- `(block.get("_meta") or {}).get("path", "")`
unfoldable pub meta_path : Fields → Result Json
meta_path d =
    if is_true (lookup "_meta" d)
    then (elim (lookup "_meta" d) [
      | Json.obj e ↦ ok (get_or "path" (Json.str "") e)
      | _ ↦ raise (exception "get")
    ])
    else ok (Json.str "")

abbrev pub image_placeholder : Clock → Json → Json
image_placeholder k path = Json.obj (
    dict (
      ("type", Json.str "text")
      ∷ (
        "text",
        Json.str (
            text_of (
              if is_true path
              then codes "[image: " ++ k.show path ++ codes "]"
              else codes "[image]")),
      )
      ∷ []))

abbrev pub is_runtime_block : Fields → Bool
is_runtime_block d =
    is_text "text" (lookup "type" d)
    && (elim (lookup "text" d) [ Json.str t ↦ is_prefix runtime_context_tag (codes t) | _ ↦ false ])

-- What is kept of an image: a placeholder for one that is given as data.
unfoldable pub kept_image : Clock → Fields → Result Json
unfolding image_url meta_path is_prefix
kept_image k d = elim (image_url d) [
  | raise e ↦ raise e
  | ok url ↦ elim (is_prefix (codes "data:image/") url) [
    | false ↦ ok (Json.obj d)
    | true ↦ elim (meta_path d) [ raise e ↦ raise e | ok path ↦ ok (image_placeholder k path) ]
  ]
]

-- A block of a user's content; `none` leaves it out.
unfoldable pub kept_block : Clock → Json → Result (Option Json)
unfolding kept_image is_prefix
kept_block k (Json.obj d) =
    if is_runtime_block d
    then ok none
    else if is_text "image_url" (lookup "type" d)
    then (elim (kept_image k d) [ raise e ↦ raise e | ok v ↦ ok (some v) ])
    else ok (some (Json.obj d))
kept_block k v = raise (exception "get")

abbrev pub prepend : Option Json → Result Items → Result Items
prepend none rest = rest
prepend (some v) (ok rest) = ok (Items.cons v rest)
prepend (some v) (raise e) = raise e

unfoldable pub filtered : Clock → Items → Result Items
unfolding kept_block
filtered k Items.nil = ok Items.nil
filtered k (Items.cons v rest) = elim (kept_block k v) [
  | raise e ↦ raise e
  | ok block ↦ prepend block (filtered k rest)
]

abbrev pub edit_items : Items → Edit
edit_items Items.nil = skipped
edit_items (Items.cons v rest) = changed (Json.arr (Items.cons v rest))

unfoldable pub edit_user : Clock → Json → Result Edit
unfolding edit_text filtered
edit_user k (Json.str t) = ok (edit_text (codes t))
edit_user k (Json.arr items) = elim (filtered k items) [
  | raise e ↦ raise e
  | ok rest ↦ ok (edit_items rest)
]
edit_user k v = ok kept

-- A long text of a tool is cut.
unfoldable pub edit_tool : ℕ → Json → Edit
unfolding truncated
edit_tool limit (Json.str t) =
    if ltb limit (length (codes t))
    then changed (Json.str (text_of (truncated limit (codes t))))
    else kept
edit_tool limit v = kept

unfoldable pub edit : Clock → Message → Result Edit
unfolding is_blank edit_tool edit_user
edit k m =
    if is_blank m
    then ok skipped
    else if has_role "tool" m
    then ok (edit_tool tool_result_max_chars (content_json m))
    else if has_role "user" m
    then edit_user k (content_json m)
    else ok kept

-- `entry.setdefault("timestamp", ...)`
abbrev pub with_timestamp : String → Message → Message
with_timestamp now m = record m {
  extra =
      if has_key "timestamp" (as_dict m.extra)
      then m.extra
      else Json.obj (assign "timestamp" (Json.str now) (as_dict m.extra));
}

abbrev pub with_content : Json → Message → Message
with_content v m = record m { content = value v }

unfoldable pub append_entry : Clock → Message → Method Saving Unit
append_entry k m s =
    let entry = with_timestamp (k.isoformat (k.now s.reads)) m in
    (
      ok tt,
      record {
        session = record s.session { messages = s.session.messages ++ entry ∷ [] };
        reads = suc s.reads;
      },
    )

abbrev pub apply_edit : Clock → Message → Edit → Method Saving Unit
apply_edit k m skipped = pure tt
apply_edit k m kept = append_entry k m
apply_edit k m (changed v) = append_entry k (with_content v m)

unfoldable pub save_message : Clock → Message → Method Saving Unit
unfolding edit append_entry
save_message k m = elim (edit k m) [ raise e ↦ throw e | ok change ↦ apply_edit k m change ]

unfoldable pub save_messages : Clock → List Message → Method Saving Unit
unfolding save_message
save_messages k [] = pure tt
save_messages k (m ∷ ms) = save_message k m >>= λ _. save_messages k ms

abbrev pub set_updated : Clock → Method Saving Unit
set_updated k s = (
  ok tt,
  record { session = record s.session { updated_at = k.now s.reads }; reads = suc s.reads },
)

-- `_save_turn`: the messages from the index `skip` on.
unfoldable pub save_turn : Clock → List Message → ℕ → Method Saving Unit
unfolding save_messages
save_turn k messages skip = save_messages k (drop skip messages) >>= λ _. set_updated k
