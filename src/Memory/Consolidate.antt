-- ===== src/Memory/Consolidate.antt =====
-- `MemoryStore.consolidate` of nanobot/agent/memory.py and the file operations that it calls, and
-- `MemoryConsolidator.archive_messages`.
use eeebot_self_evolving.Prelude.{
  codes, lstrip, name_eq, rstrip, ℕ, zero, suc, Bool, true, false, ◌&&◌, none, some, List, [], ◌∷◌,
  ◌++◌, ltb, str_eq, if◌then◌else◌, or_else, length,
}
use eeebot_self_evolving.Prelude.Effects.{
  Result, ok, raise, exception, cancelled, Method, pure, throw, ◌>>=◌,
}
use eeebot_self_evolving.Session.Message.{Message}
use eeebot_self_evolving.Memory.Store.{
  Response, World, Memory, max_failures_before_raw_archive, is_tool_choice_unsupported, ensure_text,
  Payload, broken, refused, accepted, payload_of,
}

module _ (w : World) where
  unfoldable pub append_history : List ℕ → Method Memory Unit
  append_history entry m =
      let n = m.writes in
      if w.write_ok n
      then (ok tt, record m { history = m.history ++ rstrip entry ∷ []; writes = suc n })
      else (raise (exception "write"), record m { writes = suc n })

  unfoldable pub write_long_term : List ℕ → Method Memory Unit
  write_long_term content m =
      let n = m.writes in
      if w.write_ok n
      then (ok tt, record m { memory_file = some content; writes = suc n })
      else (raise (exception "write"), record m { writes = suc n })

  abbrev pub read_long_term : Memory → List ℕ
  read_long_term m = or_else m.memory_file []

  abbrev pub raw_entry : ℕ → ℕ → List ℕ → List ℕ
  raw_entry n count text =
      codes "["
      ++ w.timestamp n
      ++ codes "] [RAW] "
      ++ w.decimal count
      ++ codes " messages"
      ++ 10 ∷ text

  unfoldable pub raw_archive : List Message → Method Memory Unit
  unfolding append_history
  raw_archive messages m = elim (w.format_messages messages) [
    | none ↦ (raise (exception "format"), m)
    | some text ↦ append_history (raw_entry m.writes (length messages) text) m
  ]

  abbrev pub set_failures : ℕ → Method Memory Unit
  set_failures n m = (ok tt, record m { consecutive_failures = n })

  unfoldable pub fail_or_raw_archive : List Message → Method Memory Bool
  unfolding raw_archive
  fail_or_raw_archive messages m =
      let failures = suc m.consecutive_failures in
      let counted = record m { consecutive_failures = failures } in
      if ltb failures max_failures_before_raw_archive
      then (ok false, counted)
      else (raw_archive messages >>= λ _. set_failures 0 >>= λ _. pure true) counted

  unfoldable pub chat_with_retry : List ℕ → Bool → Method Memory Response
  chat_with_retry text forced m =
      (w.chat m.calls (read_long_term m) text forced, record m { calls = suc m.calls })

  -- The second call, when the provider refuses a forced tool.
  unfoldable pub retry : List ℕ → Response → Method Memory Response
  unfolding chat_with_retry is_tool_choice_unsupported
  retry text r =
      if str_eq r.finish_reason "error" && is_tool_choice_unsupported w r.content
      then chat_with_retry text false
      else pure r

  -- `if update != current_memory: self.write_long_term(update)`
  unfoldable pub update_memory : List ℕ → List ℕ → Method Memory Unit
  unfolding write_long_term
  update_memory current update = if name_eq update current then pure tt else write_long_term update

  -- The new entry and the memory are written, and the failures start again at 0.
  unfoldable pub stored_entry : List ℕ → List ℕ → List ℕ → Method Memory Bool
  unfolding append_history update_memory
  stored_entry current update entry = append_history entry >>= λ _.
      update_memory current update >>= λ _. set_failures 0 >>= λ _. pure true

  unfoldable pub store_payload : List ℕ → List Message → Payload → Method Memory Bool
  unfolding fail_or_raw_archive stored_entry ensure_text
  store_payload current messages broken = throw (exception "arguments")
  store_payload current messages refused = fail_or_raw_archive messages
  store_payload current messages (accepted entry update) =
      elim (lstrip (rstrip (ensure_text w entry))) [
        | [] ↦ fail_or_raw_archive messages
        | c ∷ cs ↦ stored_entry current (ensure_text w update) (c ∷ cs)
      ]

  -- The body of the `try`.
  unfoldable pub attempt : List ℕ → List ℕ → List Message → Method Memory Bool
  unfolding chat_with_retry retry store_payload payload_of
  attempt current text messages = chat_with_retry text true >>= λ first.
      retry text first >>= λ r. store_payload current messages (payload_of w r.tool_calls)

  -- `except Exception: return self._fail_or_raw_archive(messages)`
  unfoldable pub handled : List Message → Result Bool → Method Memory Bool
  unfolding fail_or_raw_archive
  handled messages (ok b) = pure b
  handled messages (raise (exception _)) = fail_or_raw_archive messages
  handled messages (raise cancelled) = throw cancelled

  unfoldable pub consolidate : List Message → Method Memory Bool
  unfolding attempt handled
  consolidate [] m = (ok true, m)
  consolidate (x ∷ xs) m = elim (w.format_messages (x ∷ xs)) [
    | none ↦ (raise (exception "format"), m)
    | some text ↦
        let tried = attempt (read_long_term m) text (x ∷ xs) m in handled (x ∷ xs) tried.0 tried.1
  ]

  -- The loop of `archive_messages`, which returns true in any case.
  unfoldable pub archive_loop : ℕ → List Message → Method Memory Bool
  unfolding consolidate
  archive_loop zero messages = pure true
  archive_loop (suc rounds) messages =
      consolidate messages >>= λ done. if done then pure true else archive_loop rounds messages

  unfoldable pub archive_messages : List Message → Method Memory Bool
  unfolding archive_loop
  archive_messages [] = pure true
  archive_messages (x ∷ xs) = archive_loop max_failures_before_raw_archive (x ∷ xs)
