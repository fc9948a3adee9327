-- ===== src/Session/History.antt =====
-- `_find_legal_start` and `get_history` of nanobot/session/manager.py.
use native.Mathlib.Decide.{dec_lt}
use mathlib.Core.Path.{subst}
use mathlib.Core.List.{append_assoc, append-nil}
use eeebot_self_evolving.Prelude.{
  ℕ, suc, ◌-◌, ◌≤◌, ◌<◌, ◌≡◌, refl, sym, ap, ◌∙◌, Bool, true, false, ◌&&◌, not, inl, inr, none,
  some, Option-cases, map, String, List, [], ◌∷◌, ◌++◌, arith, or_else, truthy, take, drop,
  drop_split, length, length-append, length-drop, drop-append, drop-length, Bool-cases, last_items,
  length-last_items-le, length-map,
}
use eeebot_self_evolving.Prelude.Json.{get}
use eeebot_self_evolving.Session.Message.{
  ToolCall, Message, Session, member, add_ids, declare, declare_all, is_orphan, legal_loop,
  find_legal_start, from_user, entry, shortened, entries, window, get_history, has_role,
}

-- Every tool result with an id answers a call that was declared before it.
unfoldable pub is_legal : List String → List Message → Bool
is_legal declared [] = true
is_legal declared (m ∷ ms) = not (is_orphan declared m) && is_legal (declare declared m) ms

pub is_legal-append :
    (d : List String) (xs ys : List Message)
    → is_legal d (xs ++ ys) ≡ (is_legal d xs && is_legal (declare_all d xs) ys)
unfolding is_legal declare_all
is_legal-append d [] ys = refl
is_legal-append d (m ∷ ms) ys = ground (arith, is_legal-append (declare d m) ms ys)

pub declare_all-append :
    (d : List String) (xs ys : List Message)
    → declare_all d (xs ++ ys) ≡ declare_all (declare_all d xs) ys
unfolding declare_all
declare_all-append d [] ys = refl
declare_all-append d (m ∷ ms) ys = declare_all-append (declare d m) ms ys

-- Fewer declared ids make more orphans.
Sub : List String → List String → Type 0
Sub c d = (x : String) → member x c ≡ true → member x d ≡ true

Sub-cons : (c d : List String) (y : String) → Sub c d → Sub (y ∷ c) (y ∷ d)
unfolding Sub member
Sub-cons c d y h x m = ground (arith, h x)

add_ids-Sub : (cs : List ToolCall) (c d : List String) → Sub c d → Sub (add_ids cs c) (add_ids cs d)
unfolding add_ids
add_ids-Sub [] c d h = h
add_ids-Sub (t ∷ ts) c d h = elim (Bool-cases (truthy t.id)) [
  | inl e ↦ rw e (add_ids-Sub ts _ _ (Sub-cons c d (or_else t.id "") h))
  | inr e ↦ rw e (add_ids-Sub ts c d h)
]

declare-Sub : (c d : List String) (m : Message) → Sub c d → Sub (declare c m) (declare d m)
unfolding declare
declare-Sub c d m h = elim (Bool-cases (has_role "assistant" m)) [
  | inl e ↦ rw e (add_ids-Sub (or_else (get m.tool_calls) []) c d h)
  | inr e ↦ rw e h
]

declare_all-Sub :
    (c d : List String) (ms : List Message) → Sub c d → Sub (declare_all c ms) (declare_all d ms)
unfolding declare_all
declare_all-Sub c d [] h = h
declare_all-Sub c d (m ∷ ms) h =
    declare_all-Sub (declare c m) (declare d m) ms (declare-Sub c d m h)

orphan-Sub :
    (c d : List String) (m : Message) → Sub c d → is_orphan d m ≡ true → is_orphan c m ≡ true
unfolding is_orphan Sub
orphan-Sub c d m h o = ground (arith, h (or_else (get m.tool_call_id) ""))

nil-Sub : (d : List String) → Sub [] d
unfolding Sub member
nil-Sub d x m = cc

-- The calls declared in a later tail were declared in an earlier one.
tail-Sub :
    (m k : ℕ) (ms : List Message)
    → m ≤ k
    → Sub (declare_all [] (drop k ms)) (declare_all [] (drop m ms))
tail-Sub m k ms h =
    let pre = take (k - m) (drop m ms) in
    subst (λ d. Sub (declare_all [] (drop k ms)) d)
      (sym (ap (declare_all []) (drop_split m k ms h) ∙ declare_all-append [] pre (drop k ms)))
      (declare_all-Sub [] (declare_all [] pre) (drop k ms) (nil-Sub (declare_all [] pre)))

-- After the messages `pre`: `start` is the least legal start, and `declared` what is declared from it.
record Inv (pre : List Message) (declared : List String) (start : ℕ) : Type 0 where
  within : start ≤ length pre
  known : declared ≡ declare_all [] (drop start pre)
  legal : is_legal [] (drop start pre) ≡ true
  least : (k : ℕ) → k < start → is_legal [] (drop k pre) ≡ false

module _ (pre : List Message) (declared : List String) (start : ℕ) (m : Message)
    (inv : Inv pre declared start) where
  abbrev after : List Message
  after = pre ++ m ∷ []

  -- One more message after a tail.
  drop-after : (k : ℕ) → k ≤ length pre → drop k after ≡ drop k pre ++ m ∷ []
  drop-after k h = drop-append k pre (m ∷ []) h

  legal_after :
      (k : ℕ)
      → k ≤ length pre
      → is_legal [] (drop k after)
        ≡ (is_legal [] (drop k pre) && not (is_orphan (declare_all [] (drop k pre)) m))
  unfolding is_legal
  legal_after k h = rw (drop-after k h) (rw is_legal-append (ground arith))

  declare_one : (ms : List Message) → declare_all [] (ms ++ m ∷ []) ≡ declare (declare_all [] ms) m
  unfolding declare_all
  declare_one ms = declare_all-append [] ms (m ∷ [])

  -- An orphan behind `pre` is one of every tail of `pre`.
  first_orphan :
      (k : ℕ) → k ≤ length pre → is_orphan declared m ≡ true → is_legal [] (drop k after) ≡ false
  first_orphan k h o = elim (dec_lt k start) [
    | yes early ↦ rw (legal_after k h, inv.least k early) refl
    | no late ↦
        let sub =
          subst (Sub (declare_all [] (drop k pre))) (sym inv.known)
            (tail-Sub start k pre (omega arith)) in
        rw (legal_after k h, orphan-Sub (declare_all [] (drop k pre)) declared m sub o)
          (ground arith)
  ]

  keep_start : is_orphan declared m ≡ false → Inv after (declare declared m) start
  keep_start e = record {
    within = omega (arith, inv.within, length-append pre (m ∷ []));
    known =
        rw (drop-after start inv.within)
          (ap (λ d. declare d m) inv.known ∙ sym (declare_one (drop start pre)));
    legal = rw (legal_after start inv.within, inv.legal, ← inv.known, e) refl;
    least = λ k h. rw (legal_after k (omega (arith, inv.within)), inv.least k h) refl;
  }

  move_start : is_orphan declared m ≡ true → Inv after [] (length after)
  unfolding declare_all is_legal
  move_start e = record {
    within = omega arith;
    known = ap (declare_all []) (sym (drop-length after));
    legal = ap (is_legal []) (drop-length after);
    least = λ k h. first_orphan k (omega (arith, length-append pre (m ∷ []))) e;
  }

loop-Inv :
    (all pre rest : List Message) (i : ℕ) (declared : List String) (start : ℕ)
    → all ≡ pre ++ rest
    → i ≡ length pre
    → Inv pre declared start
    → (d : List String) × Inv all d (legal_loop all rest i declared start)
unfolding legal_loop declare_all
loop-Inv all pre [] i declared start a e inv =
    (declared, subst (λ ms. Inv ms declared start) (sym (append-nil pre) ∙ sym a) inv)
loop-Inv all pre (m ∷ rest) i declared start a e inv =
    let a' = a ∙ sym (append_assoc pre (m ∷ []) rest) in
    let e' : suc i ≡ length (pre ++ m ∷ []) = omega (arith, length-append pre (m ∷ [])) in
    let none_left : suc i - suc i ≡ 0 = omega arith in
    elim (Bool-cases (is_orphan declared m)) [
      | inl o ↦
          rw (o, none_left)
            (loop-Inv all (pre ++ m ∷ []) rest (suc i) [] (suc i) a' e'
              (subst (Inv (pre ++ m ∷ []) []) (sym e') (move_start pre declared start m inv o)))
      | inr o ↦ rw o (
          loop-Inv all (pre ++ m ∷ []) rest (suc i) (declare declared m) start a' e'
            (keep_start pre declared start m inv o))
    ]

find-Inv : (ms : List Message) → (d : List String) × Inv ms d (find_legal_start ms)
unfolding find_legal_start declare_all is_legal
find-Inv ms =
    loop-Inv ms [] ms 0 [] 0 refl refl
      (record { within = omega arith; known = refl; legal = refl; least = λ k h. elim h [ ] })

-- From `_find_legal_start` on, which lies in the list, every tool result with an id answers a call
-- that was declared before it.
pub find_legal_start_legal :
    (ms : List Message)
    → (is_legal [] (drop (find_legal_start ms) ms) ≡ true) × (find_legal_start ms ≤ length ms)
find_legal_start_legal ms = let (d, inv) = find-Inv ms in (inv.legal, inv.within)

entry-eq-shortened : (m e : Message) → entry m ≡ some e → e ≡ shortened m
unfolding entry
entry-eq-shortened m e h = ground arith

entries-eq-map : (ms out : List Message) → entries ms ≡ some out → out ≡ map shortened ms
unfolding entries
entries-eq-map [] out h = cc
entries-eq-map (m ∷ ms) out h = elim (Option-cases (entry m)) [
  | inl e ↦ let bad : none ≡ some out = rw (e, entries) at h in cc
  | inr (x, e) ↦ elim (Option-cases (entries ms)) [
    | inl f ↦ ground arith
    | inr (xs, f) ↦ ground (arith, entry-eq-shortened m x, entries-eq-map ms xs)
  ]
]

-- What `get_history` copies keeps the roles and the ids.
is_legal-map : (d : List String) (ms : List Message) → is_legal d (map shortened ms) ≡ is_legal d ms
unfolding is_legal is_orphan declare
is_legal-map d [] = refl
is_legal-map d (m ∷ ms) = ap (λ b. not (is_orphan d m) && b) (is_legal-map (declare d m) ms)

-- A history that `get_history` returns is legal for a provider: no tool result without its call. It is the window's tail from the legal start, message by message.
pub get_history_legal :
    (max_messages : ℕ) (s : Session) (out : List Message)
    → get_history max_messages s ≡ some out
    → let sliced = window max_messages s in
      (is_legal [] out ≡ true) × (out ≡ map shortened (drop (find_legal_start sliced) sliced))
unfolding get_history
get_history_legal max_messages s out h =
    let sliced = window max_messages s in
    let same = entries-eq-map (drop (find_legal_start sliced) sliced) out h in
    (ap (is_legal []) same ∙ is_legal-map [] _ ∙ (find_legal_start_legal sliced).0, same)

length-from_user-le : (ms us : List Message) → from_user ms ≡ some us → length us ≤ length ms
unfolding from_user
length-from_user-le [] us h = cc
length-from_user-le (m ∷ ms) us h = ground (arith, length-from_user-le ms us)

length-window-le : (n : ℕ) (s : Session) → length (window (suc n) s) ≤ suc n
unfolding window
length-window-le n s =
    let sliced = last_items (suc n) (drop s.last_consolidated s.messages) in
    let short = length-last_items-le n (drop s.last_consolidated s.messages) in
    elim (Option-cases (from_user sliced)) [
      | inl e ↦ rw e short
      | inr (us, e) ↦ rw e (omega (arith, short, length-from_user-le sliced us e))
    ]

-- A history that `get_history` returns for a positive limit has at most that many messages.
pub length-get_history-le :
    (n : ℕ) (s : Session) (out : List Message)
    → get_history (suc n) s ≡ some out
    → length out ≤ suc n
length-get_history-le n s out h =
    let w = window (suc n) s in
    let (legal, same) = get_history_legal (suc n) s out h in
    rw (same, length-map) (omega (arith, length-drop (find_legal_start w) w, length-window-le n s))
