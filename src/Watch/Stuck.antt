-- ===== src/Watch/Stuck.antt =====
-- The chain pass on an intact log, from its first row and from a later one.
use vigil_apex_f.Common.{
  false, ◌==◌, ℕ, ◌+◌, ◌≤◌, ◌<◌, ◌≡◌, refl, ap, ◌∙◌, none, some, List, [], ◌∷◌, arith, Text, length,
  le→leb, All, min,
}
use vigil_apex_f.AuditChain.Platform.{Platform}
use vigil_apex_f.AuditChain.Store.{Table, tail}
use vigil_apex_f.AuditChain.Chain.{IsChain, IsChain-tail_row}
use vigil_apex_f.AuditChain.Verify.{Break, broken, verify}
use vigil_apex_f.AuditChain.Verify.Complete.{verify_complete}
use vigil_apex_f.AuditChain.Verify.MidChain.{verify_mid_chain}
use vigil_apex_f.Watch.{
  Pass, break_message, break_event, window_end, after_verify, on_verdict, chain_pass, cursor_after,
}

-- What a pass reports when it starts past the first row.
pub record IsStuck (cursor : ℕ) (pass : Pass) : Type 0 where
  pub cursor_same : pass.verify_cursor ≡ cursor
  pub none_checked : pass.verify_checked ≡ 0
  pub reported :
      (b : Break) × (last : ℕ) × (pass.verify_break ≡ some (break_message b))
      × (pass.appended ≡ break_event cursor last (break_message b) ∷ [])

module _ (p : Platform) where
  -- The tail of a chain stands at the chain's length.
  tail_seq :
      (t : Table)
      → IsChain p t
      → 1 ≤ length t
      → (h : Text) × (tail t ≡ some (record { seq = length t; body_hash = h }))
  unfolding tail
  tail_seq [] c one = absurd (omega (arith, one))
  tail_seq (r ∷ t) c one = (r.body_hash, rw (IsChain-tail_row p r t c) (cc (c.0.seq_next)))

  chain_pass-window :
      (t : Table) (rows cursor : ℕ)
      → IsChain p t
      → 1 ≤ rows
      → cursor ≤ length t
      → 1 ≤ cursor
      → let last = window_end rows cursor (length t) in
        chain_pass p rows cursor t ≡ on_verdict cursor last (verify p cursor (some last) 1000 t)
  unfolding chain_pass
  chain_pass-window t rows cursor c low le one =
      let (h, e) = tail_seq t c (omega (arith, le, one)) in
      let off : (rows == 0) ≡ false = ground (arith, low) in
      rw (off, e, le→leb cursor (length t) le) refl

  -- On an intact log whose rows pass the cursor, a pass from a later row than the first one reports a
  -- break, checks no row and leaves the cursor where it was.
  pub chain_pass-IsStuck :
      (t : Table) (rows cursor : ℕ)
      → IsChain p t
      → 1 ≤ rows
      → 1 < cursor
      → cursor ≤ length t
      → (pass : Pass) × (chain_pass p rows cursor t ≡ some pass) × IsStuck cursor pass
  chain_pass-IsStuck t rows cursor c low past le =
      let last = window_end rows cursor (length t) in
      let from_le : cursor ≤ last = ground (arith, low, le) in
      let (b, q) = verify_mid_chain p t cursor last 1000 c past from_le le (omega arith) in
      (
        after_verify cursor last (broken b),
        chain_pass-window t rows cursor c low le (omega (arith, past))
            ∙ ap (on_verdict cursor last) q,
        unfold after_verify in
            record { cursor_same = refl; none_checked = refl; reported = (b, last, refl, refl) },
      )

  -- On an intact log that is not empty, a pass from the first row checks the rows of its window.
  pub chain_pass-first :
      (t : Table) (rows : ℕ)
      → IsChain p t
      → 1 ≤ rows
      → 1 ≤ length t
      → chain_pass p rows 1 t
        ≡ some (record {
          verify_cursor = min rows (length t) + 1;
          verify_checked = min rows (length t);
          verify_break = none;
          appended = [];
        })
  unfolding after_verify
  chain_pass-first t rows c low one =
      let last = window_end rows 1 (length t) in
      let at : last ≡ min rows (length t) = ground (arith, low) in
      chain_pass-window t rows 1 c low one (omega arith)
      ∙ ap (on_verdict 1 last) (verify_complete p t (some last) 1000 c (omega arith))
      ∙ ground (arith, at)

  -- A cursor past the first row stays where it is, whatever intact logs the ticks find.
  cursor_after-stuck :
      (rows cursor : ℕ) (ts : List Table)
      → All (λ t. IsChain p t × (cursor ≤ length t)) ts
      → 1 ≤ rows
      → 1 < cursor
      → cursor_after p rows cursor ts ≡ some cursor
  unfolding cursor_after
  cursor_after-stuck rows cursor [] h low past = refl
  cursor_after-stuck rows cursor (t ∷ ts) (h, hs) low past =
      let (pass, q, stuck) = chain_pass-IsStuck t rows cursor h.0 low past h.1 in
      rw (cursor_after, q, stuck.cursor_same) (cursor_after-stuck rows cursor ts hs low past)

  -- Once the watcher that starts at the first row has passed over an intact log that is not empty,
  -- its cursor stays behind the first window for good, if each later log is intact and has a row
  -- past that window.
  pub cursor_after-window :
      (rows : ℕ) (t : Table) (ts : List Table)
      → IsChain p t
      → All (λ l. IsChain p l × (min rows (length t) + 1 ≤ length l)) ts
      → 1 ≤ rows
      → 1 ≤ length t
      → cursor_after p rows 1 (t ∷ ts) ≡ some (min rows (length t) + 1)
  unfolding cursor_after
  cursor_after-window rows t ts c h low one =
      rw (cursor_after, chain_pass-first t rows c low one)
        (cursor_after-stuck rows (min rows (length t) + 1) ts h low (omega (arith, low, one)))
