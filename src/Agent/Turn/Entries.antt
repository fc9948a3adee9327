-- ===== src/Agent/Turn/Entries.antt =====
-- The entries that `_save_turn` of nanobot/agent/loop.py makes of messages.
use mathlib.Core.Path.{subst}
use eeebot_self_evolving.Prelude.{
  str_eq, ℕ, suc, Bool, true, false, not, String, List, [], ◌∷◌, ltb, ◌≡◌, ◌≤◌, ◌+◌, refl, ap,
  arith, inl, inr, Bool-cases, both_true, or_else, take, length, codes, text_of, length-append,
  length-take-le,
}
use eeebot_self_evolving.Prelude.Json.{Json, get}
use eeebot_self_evolving.Prelude.Effects.{ok_inj, ok}
use eeebot_self_evolving.Session.Message.{ToolCall, Message, has_role, declare, add_ids}
use eeebot_self_evolving.Runtime.Dict.{is_true}
use eeebot_self_evolving.Agent.Pairs.{one_role}
use eeebot_self_evolving.Agent.Turn.{
  Clock, Edit, skipped, kept, changed, tool_result_max_chars, content_json, has_calls, is_blank,
  truncated, with_content, edit_tool, edit,
}

-- A text has at most `limit` characters and those of the note.
abbrev pub IsShort : ℕ → Json → Type 0
IsShort limit (Json.str t) = length (codes t) ≤ limit + 16
IsShort limit _ = Unit

length-text_of : (cs : List ℕ) → length (codes (text_of cs)) ≡ length cs
length-text_of [] = refl
length-text_of (c ∷ cs) = ap suc (length-text_of cs)

short_truncated : (limit : ℕ) (cs : List ℕ) → length (truncated limit cs) ≤ limit + 16
unfolding truncated
short_truncated limit cs =
    let cut = length-take-le limit cs in
    let joined = length-append (take limit cs) (codes "\n... (truncated)") in
    omega (arith, cut, joined)

-- The content after an edit.
abbrev pub edited : Edit → Json → Json
edited (changed v) old = v
edited _ old = old

edit_tool-IsShort : (limit : ℕ) (v : Json) → IsShort limit (edited (edit_tool limit v) v)
unfolding edit_tool
edit_tool-IsShort limit (Json.str t) = elim (Bool-cases (ltb limit (length (codes t)))) [
  | inl e ↦ rw (e, length-text_of (truncated limit (codes t))) (short_truncated limit (codes t))
  | inr e ↦ rw e (ground arith)
]
edit_tool-IsShort limit v = tt

-- No empty message of the assistant, and no long result of a tool.
pub record IsFine (e : Message) : Type 0 where
  pub full : is_blank e ≡ false
  pub short : has_role "tool" e ≡ true → IsShort tool_result_max_chars (content_json e)

-- An edited message.
abbrev pub after_edit : Edit → Message → Message
after_edit (changed v) m = with_content v m
after_edit _ m = m

after_edit-content :
    (c : Edit) (m : Message) → content_json (after_edit c m) ≡ edited c (content_json m)
after_edit-content skipped m = refl
after_edit-content kept m = refl
after_edit-content (changed v) m = refl

after_edit-role : (r : String) (c : Edit) (m : Message) → has_role r (after_edit c m) ≡ has_role r m
after_edit-role r skipped m = refl
after_edit-role r kept m = refl
after_edit-role r (changed v) m = refl

no_ids :
    (cs : List ToolCall) (d : List String)
    → not (elim cs [ [] ↦ false | _ ↦ true ]) ≡ true
    → add_ids cs d ≡ d
unfolding add_ids
no_ids [] d h = refl
no_ids (c ∷ cs) d h = cc

not_blank : (m : Message) → has_role "assistant" m ≡ false → is_blank m ≡ false
unfolding is_blank
not_blank m h = rw h refl

-- What an edit leaves is fine.
abbrev pub IsFineAfter : Edit → Message → Type 0
IsFineAfter skipped m = Unit
IsFineAfter c m = IsFine (after_edit c m)

module _ (m : Message) where
  abbrev has : String → Bool
  has r = has_role r m

  not_both : (a b : String) → str_eq a b ≡ false → has a ≡ true → has b ≡ false
  not_both a b other h = one_role a b (get m.role) other h

  fine_tool :
      (c : Edit)
      → has "tool" ≡ true
      → IsShort tool_result_max_chars (edited c (content_json m))
      → IsFineAfter c m
  fine_tool skipped h s = tt
  fine_tool kept h s = record {
    full = not_blank m (not_both "tool" "assistant" refl h);
    short = λ _. s;
  }
  fine_tool (changed v) h s = record {
    full = not_blank (with_content v m) (not_both "tool" "assistant" refl h);
    short = λ _. s;
  }

  fine_user : (c : Edit) → has "user" ≡ true → IsFineAfter c m
  fine_user skipped h = tt
  fine_user kept h =
      let other = not_both "user" "tool" refl h in
      record { full = not_blank m (not_both "user" "assistant" refl h); short = λ t. cc }
  fine_user (changed v) h =
      let other = not_both "user" "tool" refl h in
      record {
        full = not_blank (with_content v m) (not_both "user" "assistant" refl h);
        short = λ t. cc;
      }

  module _ (k : Clock) where
    pub edit-IsFine : (c : Edit) → edit k m ≡ ok c → IsFineAfter c m
    unfolding edit
    edit-IsFine c h = elim (Bool-cases (is_blank m)) [
      | inl e ↦
          let h' : ok skipped ≡ ok c = rw e at h in subst (λ c. IsFineAfter c m) (ok_inj h') tt
      | inr e ↦ elim (Bool-cases (has "tool")) [
        | inl f ↦
            let v = content_json m in
            let h' : ok (edit_tool tool_result_max_chars v) ≡ ok c = rw (e, f) at h in
            subst (λ c. IsFineAfter c m) (ok_inj h')
              (fine_tool (edit_tool tool_result_max_chars v) f (edit_tool-IsShort _ v))
        | inr f ↦ elim (Bool-cases (has "user")) [
          | inl g ↦ fine_user c g
          | inr g ↦
              let h' : ok kept ≡ ok c = rw (e, f, g) at h in
              subst (λ c. IsFineAfter c m) (ok_inj h') (record { full = e; short = λ t. cc })
        ]
      ]
    ]

    other-declare : (d : List String) → has "assistant" ≡ false → declare d m ≡ d
    unfolding declare
    other-declare d h = rw h refl

    no_calls-declare : (d : List String) → is_blank m ≡ true → declare d m ≡ d
    unfolding is_blank declare add_ids
    no_calls-declare d h =
        let (assistant, empty) = both_true (has "assistant") _ h in
        let (blank, no_calls) =
          both_true (not (is_true (content_json m))) (not (has_calls m)) empty in
        rw assistant (no_ids (or_else (get m.tool_calls) []) d no_calls)

    -- What is skipped declares no call.
    pub skipped-declare : (d : List String) → edit k m ≡ ok skipped → declare d m ≡ d
    unfolding edit
    skipped-declare d h = elim (Bool-cases (is_blank m)) [
      | inl e ↦ no_calls-declare d e
      | inr e ↦ elim (Bool-cases (has "tool")) [
        | inl f ↦ other-declare d (not_both "tool" "assistant" refl f)
        | inr f ↦ elim (Bool-cases (has "user")) [
          | inl g ↦ other-declare d (not_both "user" "assistant" refl g)
          | inr g ↦ let h' : ok kept ≡ ok skipped = rw (e, f, g) at h in cc
        ]
      ]
    ]
