-- ===== src/Agent/Pairs.antt =====
-- The calls of the assistant's messages and their results, in the messages of
-- nanobot/agent/loop.py.
use eeebot_self_evolving.Prelude.{
  Bool, true, false, ◌&&◌, not, Option, none, some, String, List, [], ◌∷◌, ◌++◌, map, str_eq,
  eq_iff, ◌≡◌, refl, arith, or_else, truthy, if◌then◌else◌, Bool-cases, both_true, inl, inr,
}
use eeebot_self_evolving.Prelude.Json.{get}
use eeebot_self_evolving.Session.Message.{
  ToolCall, Message, has_role, member, add_ids, declare, is_orphan,
}
use eeebot_self_evolving.Session.History.{is_legal}

abbrev pub id_of : ToolCall → String
id_of c = or_else c.id ""

-- The ids of the calls of an assistant's message.
abbrev pub call_ids : Message → List String
call_ids m = if has_role "assistant" m then map id_of (or_else (get m.tool_calls) []) else []

abbrev pub result_id : Message → String
result_id m = or_else (get m.tool_call_id) ""

-- First the results of `expected` come, in this order. Behind them, right after every message with
-- calls come the results of its calls, one for each and in their order, and no other result occurs.
unfoldable pub is_paired : List String → List Message → Bool
is_paired [] [] = true
is_paired (x ∷ xs) [] = false
is_paired [] (m ∷ ms) = not (has_role "tool" m) && is_paired (call_ids m) ms
is_paired (x ∷ xs) (m ∷ ms) = has_role "tool" m && (str_eq (result_id m) x && is_paired xs ms)

pub is_paired-append :
    (expected : List String) (xs ys : List Message)
    → is_paired expected xs ≡ true
    → is_paired expected (xs ++ ys) ≡ is_paired [] ys
unfolding is_paired
is_paired-append [] [] ys h = refl
is_paired-append (e ∷ es) [] ys h = cc
is_paired-append [] (m ∷ ms) ys h = ground (arith, is_paired-append (call_ids m) ms ys)
is_paired-append (e ∷ es) (m ∷ ms) ys h = ground (arith, is_paired-append es ms ys)

-- The ids that are not empty were declared.
abbrev Known : List String → List String → Type 0
Known declared [] = Unit
Known declared (x ∷ xs) = (str_eq x "" ≡ false → member x declared ≡ true) × Known declared xs

member-add_ids :
    (cs : List ToolCall) (x : String) (d : List String)
    → member x d ≡ true
    → member x (add_ids cs d) ≡ true
unfolding add_ids member
member-add_ids [] x d h = h
member-add_ids (c ∷ cs) x d h = elim (Bool-cases (truthy c.id)) [
  | inl e ↦ rw e (member-add_ids cs x (or_else c.id "" ∷ d) (ground arith))
  | inr e ↦ rw e (member-add_ids cs x d h)
]

self_eq : (x : String) → str_eq x x ≡ true
self_eq x = (eq_iff x x).1 refl

member-declared :
    (o : Option String) (cs : List ToolCall) (d : List String)
    → str_eq (or_else o "") "" ≡ false
    → member (or_else o "") (add_ids cs (if truthy o then or_else o "" ∷ d else d)) ≡ true
unfolding member
member-declared none cs d e = cc
member-declared (some t) cs d e =
    let same = self_eq t in rw e (member-add_ids cs t (t ∷ d) (ground arith))

Known-add_ids : (cs : List ToolCall) (d : List String) → Known (add_ids cs d) (map id_of cs)
unfolding add_ids
Known-add_ids [] d = tt
Known-add_ids (c ∷ cs) d = (member-declared c.id cs d, Known-add_ids cs _)

Known-declare : (m : Message) (d : List String) → Known (declare d m) (call_ids m)
unfolding declare
Known-declare m d = elim (Bool-cases (has_role "assistant" m)) [
  | inl e ↦ rw e (Known-add_ids (or_else (get m.tool_calls) []) d)
  | inr e ↦ rw e tt
]

pub one_role :
    (a b : String) (o : Option String)
    → str_eq a b ≡ false
    → (elim o [ none ↦ false | some q ↦ str_eq q a ]) ≡ true
    → (elim o [ none ↦ false | some q ↦ str_eq q b ]) ≡ false
one_role a b none other e = cc
one_role a b (some q) other e = let same : q ≡ a = (eq_iff q a).0 e in rw same other

-- A result declares no call.
tool-declare : (m : Message) (d : List String) → has_role "tool" m ≡ true → declare d m ≡ d
unfolding declare
tool-declare m d e = let other = one_role "tool" "assistant" (get m.role) refl e in rw other refl

answered :
    (o : Option String) (d : List String)
    → (str_eq (or_else o "") "" ≡ false → member (or_else o "") d ≡ true)
    → (truthy o && not (member (or_else o "") d)) ≡ false
answered none d k = refl
answered (some t) d k = elim (Bool-cases (str_eq t "")) [
  | inl e ↦ ground arith
  | inr e ↦ let found = k e in ground arith
]

known_result :
    (x : String) (d : List String) (m : Message)
    → (str_eq x "" ≡ false → member x d ≡ true)
    → str_eq (result_id m) x ≡ true
    → is_orphan d m ≡ false
unfolding is_orphan
known_result x d m k e =
    let same : result_id m ≡ x = (eq_iff (result_id m) x).0 e in
    let found = answered (get m.tool_call_id) d (rw same k) in ground arith

other_message :
    (d : List String) (m : Message) → not (has_role "tool" m) ≡ true → is_orphan d m ≡ false
unfolding is_orphan
other_message d m h = ground arith

not_orphan : (a b : Bool) → a ≡ false → b ≡ true → (not a && b) ≡ true
not_orphan a b e f = ground arith

-- Messages in which every call has its result are legal: no result without its call.
pub is_paired-is_legal :
    (expected declared : List String) (ms : List Message)
    → Known declared expected
    → is_paired expected ms ≡ true
    → is_legal declared ms ≡ true
unfolding is_paired is_legal
is_paired-is_legal [] d [] k h = refl
is_paired-is_legal (x ∷ xs) d [] k h = cc
is_paired-is_legal [] d (m ∷ ms) k h =
    let (other, rest) = both_true _ _ h in
    not_orphan _ _ (other_message d m other)
      (is_paired-is_legal (call_ids m) (declare d m) ms (Known-declare m d) rest)
is_paired-is_legal (x ∷ xs) d (m ∷ ms) k h =
    let (tool, answers) = both_true _ _ h in
    let (same, rest) = both_true _ _ answers in
    let ih = is_paired-is_legal xs d ms k.1 rest in
    not_orphan _ _ (known_result x d m k.0 same) (rw (tool-declare m d tool) ih)
