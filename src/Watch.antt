-- ===== src/Watch.antt =====
-- apps/worker-audit-watch/src/index.ts: the chain pass of a tick, which replays a window of the audit
-- log with HashChain.verify, and the seed of its cursor.
pub mod Stuck
mod Tests
use vigil_apex_f.Common.{
  ℕ, ◌+◌, ◌-◌, Option, none, some, List, [], ◌∷◌, ◌++◌, Text, codes, ltb, leb, ◌==◌, if◌then◌else◌,
  length,
}
use vigil_apex_f.AuditChain.Json.{Json, null, num, str, obj, end, field}
use vigil_apex_f.AuditChain.Platform.{Platform}
use vigil_apex_f.AuditChain.Canonical.{decimal}
use vigil_apex_f.AuditChain.Store.{Table, Tail, tail}
use vigil_apex_f.AuditChain.Append.{AppendInput}
use vigil_apex_f.AuditChain.Verify.{
  Break, seq_break, hash_break, prev_break, Verdict, ok, broken, verify,
}

abbrev pub break_id : Break → Text
break_id (seq_break id expected actual) = id
break_id (hash_break id expected actual) = id
break_id (prev_break id expected actual) = id

-- The message of HashChainBrokenError.
abbrev pub break_message : Break → Text
break_message b = codes "Hash chain integrity violated at event " ++ (break_id b ++ codes ".")

abbrev pub rule_version : Text
rule_version = codes "v1.0.0"

-- What a tick logged before its last row, and the variables it leaves.
pub record Pass : Type 0 where
  pub verify_cursor : ℕ
  pub verify_checked : ℕ
  pub verify_break : Option Text
  -- the inputs of chain.append, in order
  pub appended : List AppendInput

abbrev pub watch_event : Text → Json → AppendInput
watch_event action payload = record {
  action = action;
  actor = codes "system:worker-audit-watch";
  subject_kind = codes "system";
  subject_id = codes "audit-watch";
  occurred_at = none;
  payload = some payload;
}

abbrev pub break_event : ℕ → ℕ → Text → AppendInput
break_event from to message = watch_event (codes "audit.hash_chain_break") (
    obj (
      field (codes "from_seq") (str (decimal from)) (
        field (codes "to_seq") (str (decimal to)) (
          field (codes "error") (str message)
            (field (codes "rule_version") (str rule_version) end)))))

abbrev pub text_or_null : Option Text → Json
text_or_null none = null
text_or_null (some t) = str t

-- The row of every tick.
abbrev pub verified_event : ℕ → ℕ → ℕ → ℕ → Option Text → AppendInput
verified_event window_hours scanned alerts checked found =
    watch_event (codes "audit.hash_chain_verified") (
      obj (
        field (codes "rule_version") (str rule_version) (
          field (codes "window_hours") (num (decimal window_hours)) (
            field (codes "events_scanned") (num (decimal scanned)) (
              field (codes "alerts_emitted") (num (decimal alerts)) (
                field (codes "chain_rows_verified") (num (decimal checked))
                  (field (codes "chain_break") (text_or_null found) end)))))))

abbrev pub unchecked : ℕ → Pass
unchecked cursor = record {
  verify_cursor = cursor;
  verify_checked = 0;
  verify_break = none;
  appended = [];
}

-- The cursor that the process starts with, when the environment sets none.
unfoldable pub seed_cursor : ℕ → Option Tail → ℕ
seed_cursor verify_rows none = 1
seed_cursor verify_rows (some tail) =
    if ltb verify_rows tail.seq then tail.seq + 1 - verify_rows else 1

-- `to - from + 1n > rows ? from + rows - 1n : to`
abbrev pub window_end : ℕ → ℕ → ℕ → ℕ
window_end verify_rows from to =
    if ltb (verify_rows + from) (to + 1) then from + verify_rows - 1 else to

-- The `try` and the `catch` around chain.verify.
unfoldable pub after_verify : ℕ → ℕ → Verdict ℕ → Pass
after_verify from last (ok checked) = record {
  verify_cursor = last + 1;
  verify_checked = checked;
  verify_break = none;
  appended = [];
}
after_verify from last (broken b) = record {
  verify_cursor = from;
  verify_checked = 0;
  verify_break = some (break_message b);
  appended = break_event from last (break_message b) ∷ [];
}

abbrev pub on_verdict : ℕ → ℕ → Option (Verdict ℕ) → Option Pass
on_verdict from last none = none
on_verdict from last (some v) = some (after_verify from last v)

module _ (p : Platform) where
  abbrev pub verify_window : ℕ → ℕ → Option Tail → Table → Option Pass
  verify_window verify_rows cursor none t = some (unchecked cursor)
  verify_window verify_rows cursor (some tail) t =
      let last = window_end verify_rows cursor tail.seq in
      if leb cursor tail.seq
      then on_verdict cursor last (verify p cursor (some last) 1000 t)
      else some (unchecked cursor)

  -- The chain pass of a tick; `none` is a sweep that never ends.
  unfoldable pub chain_pass : ℕ → ℕ → Table → Option Pass
  chain_pass verify_rows cursor t =
      if verify_rows == 0
      then some (unchecked cursor)
      else verify_window verify_rows cursor (tail t) t

  -- The cursor after a pass over each of the tables that the ticks find.
  unfoldable pub cursor_after : ℕ → ℕ → List Table → Option ℕ
  cursor_after verify_rows cursor [] = some cursor
  cursor_after verify_rows cursor (t ∷ ts) = elim (chain_pass verify_rows cursor t) [
    | none ↦ none
    | some pass ↦ cursor_after verify_rows pass.verify_cursor ts
  ]

-- What one tick appends to the log: the break, if there is one, and the row of every tick.
unfoldable pub tick_rows : ℕ → ℕ → ℕ → Pass → List AppendInput
tick_rows window_hours scanned alerts pass =
    pass.appended
    ++ (verified_event window_hours scanned alerts pass.verify_checked pass.verify_break ∷ [])
