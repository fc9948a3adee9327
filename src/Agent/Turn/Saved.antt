-- ===== src/Agent/Turn/Saved.antt =====
-- The session after `_save_turn` of nanobot/agent/loop.py.
use mathlib.Core.List.{append_assoc, append-nil}
use mathlib.Core.Path.{subst}
use eeebot_self_evolving.Prelude.{
  ℕ, true, String, List, [], ◌∷◌, ◌++◌, ◌≡◌, refl, sym, ap, ◌∙◌, drop, All, All-append, both_true,
  not, inl, inr,
}
use eeebot_self_evolving.Prelude.Effects.{
  Result, Error, ok, raise, and_then, Result-cases, bind_ok, bind_raise,
}
use eeebot_self_evolving.Session.Message.{Message, declare, declare_all, is_orphan}
use eeebot_self_evolving.Session.History.{is_legal, is_legal-append, declare_all-append}
use eeebot_self_evolving.Agent.Turn.{
  is_blank, Clock, Saving, Edit, skipped, kept, changed, with_content, with_timestamp, edit,
  append_entry, apply_edit, save_message, save_messages, set_updated, save_turn,
}
use eeebot_self_evolving.Agent.Turn.Entries.{IsFine, edit-IsFine, skipped-declare}

-- The session grows by `added`, which is fine and legal behind what was declared before.
pub record IsSaved (s t : Saving) : Type 0 where
  pub added : List Message
  pub messages : t.session.messages ≡ s.session.messages ++ added
  pub fine : All IsFine added
  pub legal : is_legal [] s.session.messages ≡ true → is_legal [] t.session.messages ≡ true

-- Behind the messages of `s`, the messages `ms` are legal.
abbrev LegalNext : Saving → List Message → Type 0
LegalNext s ms = is_legal (declare_all [] s.session.messages) ms ≡ true

nothing-IsSaved : (s : Saving) → IsSaved s s
nothing-IsSaved s = record {
  added = [];
  messages = sym (append-nil s.session.messages);
  fine = tt;
  legal = λ h. h;
}

IsSaved-more : (s t u : Saving) → IsSaved s t → IsSaved t u → IsSaved s u
IsSaved-more s t u h k = record {
  added = h.added ++ k.added;
  messages =
      k.messages
      ∙ ap (λ ms. ms ++ k.added) h.messages
      ∙ append_assoc s.session.messages h.added k.added;
  fine = All-append IsFine h.added k.added h.fine k.fine;
  legal = λ l. k.legal (h.legal l);
}

IsFine-with_timestamp : (n : String) (e : Message) → IsFine e → IsFine (with_timestamp n e)
unfolding is_blank
IsFine-with_timestamp n e h = record { full = h.full; short = h.short }

-- One message, and what is legal behind it.
module _ (k : Clock) (m : Message) (rest : List Message) where
  abbrev Next : Saving → Saving → Type 0
  Next s t = IsSaved s t × LegalNext t rest

  -- An entry with the ids of the message.
  record IsEntry (e : Message) : Type 0 where
    orphan : (d : List String) → is_orphan d e ≡ is_orphan d m
    known : (d : List String) → declare d e ≡ declare d m
    fine : IsFine e

  append_Next :
      (e : Message) (s : Saving)
      → IsEntry e
      → LegalNext s (m ∷ rest)
      → Next s (append_entry k e s).1
  unfolding append_entry is_legal declare_all is_orphan declare
  append_Next e s entry h =
      let n = k.isoformat (k.now s.reads) in
      let d = declare_all [] s.session.messages in
      let (answers, later) = both_true (not (is_orphan d m)) (is_legal (declare d m) rest) h in
      let one : is_legal d (with_timestamp n e ∷ []) ≡ true = rw (entry.orphan d, answers) refl in
      (
        record {
          added = with_timestamp n e ∷ [];
          messages = refl;
          fine = (IsFine-with_timestamp n e entry.fine, tt);
          legal = λ l.
              rw (is_legal-append [] s.session.messages (with_timestamp n e ∷ []), l, one) refl;
        },
        rw (declare_all-append [] s.session.messages (with_timestamp n e ∷ []), entry.known d)
            later,
      )

  apply_Next :
      (c : Edit) (s : Saving)
      → edit k m ≡ ok c
      → LegalNext s (m ∷ rest)
      → Next s (apply_edit k m c s).1
  unfolding is_orphan declare is_legal
  apply_Next skipped s e h =
      let d = declare_all [] s.session.messages in
      let (answers, later) = both_true (not (is_orphan d m)) (is_legal (declare d m) rest) h in
      (nothing-IsSaved s, rw (skipped-declare m k d e) at later)
  apply_Next kept s e h =
      append_Next m s
        (record { orphan = λ d. refl; known = λ d. refl; fine = edit-IsFine m k kept e }) h
  apply_Next (changed v) s e h =
      append_Next (with_content v m) s
        (record { orphan = λ d. refl; known = λ d. refl; fine = edit-IsFine m k (changed v) e }) h

module _ (k : Clock) where
  apply_edit-ok :
      (m : Message) (c : Edit) (s : Saving) → apply_edit k m c s ≡ (ok tt, (apply_edit k m c s).1)
  unfolding append_entry
  apply_edit-ok m skipped s = refl
  apply_edit-ok m kept s = refl
  apply_edit-ok m (changed v) s = refl

  save_message-ok :
      (m : Message) (c : Edit) (s : Saving)
      → edit k m ≡ ok c
      → save_message k m s ≡ (ok tt, (apply_edit k m c s).1)
  unfolding save_message
  save_message-ok m c s e = rw (e, save_message) (apply_edit-ok m c s)

  save_message-raise :
      (m : Message) (x : Error) (s : Saving)
      → edit k m ≡ raise x
      → save_message k m s ≡ (raise x, s)
  unfolding save_message
  save_message-raise m x s e = rw (e, save_message) refl

  -- What is saved of `ms`, also when an exception ends it.
  save_messages-IsSaved :
      (ms : List Message) (s : Saving) → LegalNext s ms → IsSaved s (save_messages k ms s).1
  unfolding save_messages
  save_messages-IsSaved [] s h = nothing-IsSaved s
  save_messages-IsSaved (m ∷ ms) s h = elim (Result-cases (edit k m)) [
    | inl (c, e) ↦
        let (first, next) = apply_Next k m ms c s e h in
        let t = (apply_edit k m c s).1 in
        let goes_on =
          bind_ok (save_message k m) (λ _. save_messages k ms) s (save_message-ok m c s e) in
        subst (λ q. IsSaved s q.1) (sym goes_on)
          (IsSaved-more s t _ first (save_messages-IsSaved ms t next))
    | inr (x, e) ↦
        let ends =
          bind_raise (save_message k m) (λ _. save_messages k ms) s (save_message-raise m x s e) in
        subst (λ q. IsSaved s q.1) (sym ends) (nothing-IsSaved s)
  ]

  then_updated :
      (r : Result Unit) (s t : Saving)
      → IsSaved s t
      → IsSaved s (and_then r (λ _. set_updated k) t).1
  then_updated (ok tt) s t h = record {
    added = h.added;
    messages = h.messages;
    fine = h.fine;
    legal = h.legal;
  }
  then_updated (raise x) s t h = h

pub save_turn-IsSaved :
    (k : Clock) (messages : List Message) (skip : ℕ) (s : Saving)
    → is_legal (declare_all [] s.session.messages) (drop skip messages) ≡ true
    → IsSaved s (save_turn k messages skip s).1
unfolding save_turn
save_turn-IsSaved k messages skip s h =
    then_updated k (save_messages k (drop skip messages) s).0 s _
      (save_messages-IsSaved k (drop skip messages) s h)
