-- ===== src/AuditChain/Append/Laws.antt =====
-- One insertion of HashChain.append.
use vigil_apex_f.Common.{
  ℕ, zero, suc, ◌+◌, ◌≤◌, ◌≡◌, sym, ap, subst, Bool-cases, inl, inr, ◌⊎◌, Option, List, [], ◌∷◌,
  Text, arith, ltb, All,
}
use vigil_apex_f.AuditChain.Json.{Json}
use vigil_apex_f.AuditChain.Json.Order.{SameJson-sort_keys}
use vigil_apex_f.AuditChain.Platform.{Platform, Laws, IsPlain}
use vigil_apex_f.AuditChain.Canonical.{body_hash, canonicalise, stable_json, stringify}
use vigil_apex_f.AuditChain.Store.{Row, Table, event_of, tail_row}
use vigil_apex_f.AuditChain.Chain.{
  IsChain, IsLinked, IsPlainEvent, IsChain-next_seq, IsChain-prev_of,
}
use vigil_apex_f.AuditChain.Append.{
  AuditError, next_seq, Result, ok, err, Gated, Attempt, Fate, seq_hard_cap, event_at, row_after,
  stored, insert_next, unreachable, commits, rolled_back, answer_lost, next, kept, commit_others,
  attempt, append_loop, finish,
}

-- A gated event has plain fields, and an instant that a TIMESTAMPTZ column keeps.
pub record IsGated (p : Platform) (g : Gated) : Type 0 where
  pub plain : IsPlainEvent (event_at p 0 g)
  pub instant : p.timestamptz g.occurred_at ≡ g.occurred_at

module _ (p : Platform) (laws : Laws p) where
  stable_json-jsonb : (v : Json) → stable_json p (p.jsonb v) ≡ stable_json p v
  unfolding stable_json
  stable_json-jsonb v = ap (stringify p) (SameJson-sort_keys (laws.jsonb_same v))

  -- The column types do not change the hash of an event.
  body_hash-stored :
      (last : Option Row) (id : Text) (g : Gated)
      → IsGated p g
      → body_hash p (event_of (stored p (row_after p last id g)))
        ≡ body_hash p (event_at p (next_seq last) g)
  unfolding body_hash canonicalise row_after stored
  body_hash-stored last id g h = cc (h.instant, stable_json-jsonb g.payload)

  stored-IsLinked :
      (t : Table) (id : Text) (g : Gated)
      → IsChain p t
      → IsGated p g
      → next_seq (tail_row t) ≤ seq_hard_cap
      → IsLinked p t (stored p (row_after p (tail_row t) id g))
  unfolding row_after stored
  stored-IsLinked t id g c h le = record {
    seq_next = IsChain-next_seq p t c;
    seq_safe = le;
    prev_linked = IsChain-prev_of p t c;
    hashed = cc (IsChain-prev_of p t c, body_hash-stored (tail_row t) id g h);
    plain = record {
      action_plain = h.plain.action_plain;
      actor_plain = h.plain.actor_plain;
      subject_kind_plain = h.plain.subject_kind_plain;
      subject_id_plain = h.plain.subject_id_plain;
      occurred_at_plain = subst IsPlain (sym h.instant) h.plain.occurred_at_plain;
    };
  }

  pub insert_next-IsChain :
      (t : Table) (id : Text) (g : Gated)
      → IsChain p t
      → IsGated p g
      → IsChain p (kept t (insert_next p t id g))
  unfolding insert_next
  insert_next-IsChain t id g c h = elim (Bool-cases (ltb seq_hard_cap (next_seq (tail_row t)))) [
    | inl over ↦ rw over c
    | inr safe ↦ rw safe (stored-IsLinked t id g c h (ground (arith, safe)), c)
  ]

-- A property of the table that one insertion keeps is kept by a whole append.
module _ {κ} (p : Platform) (P : Table → Type κ)
    (grow : (t : Table) (id : Text) (g : Gated)
      → IsGated p g
      → P t
      → P (kept t (insert_next p t id g))) where
  commit_others_inv :
      (others : List (Text × Gated)) (t : Table)
      → All (λ o. IsGated p o.1) others
      → P t
      → P (commit_others p others t)
  unfolding commit_others
  commit_others_inv [] t hs h = h
  commit_others_inv ((id, g) ∷ rest) t (hg, hs) h =
      commit_others_inv rest (kept t (insert_next p t id g)) hs (grow t id g hg h)

  finish_inv :
      (f : Fate) (t : Table) (o : Result (Row × Table)) → P t → P (kept t o) → P (finish f t o).0
  unfolding finish
  finish_inv unreachable t o h k = h
  finish_inv commits t (ok (r, t')) h k = k
  finish_inv rolled_back t (ok (r, t')) h k = h
  finish_inv answer_lost t (ok (r, t')) h k = k
  finish_inv commits t (err e) h k = h
  finish_inv rolled_back t (err e) h k = h
  finish_inv answer_lost t (err e) h k = h

  attempt_inv :
      (a : Attempt) (g : Gated) (t : Table)
      → All (λ o. IsGated p o.1) a.others
      → IsGated p g
      → P t
      → P (attempt p a g t).0
  unfolding attempt
  attempt_inv a g t hs hg h =
      let t1 = commit_others p a.others t in
      let h1 = commit_others_inv a.others t hs h in
      finish_inv a.fate t1 (insert_next p t1 a.id g) h1 (grow t1 a.id g hg h1)

  next_inv :
      (o : Table × (Result Row ⊎ AuditError)) (again : AuditError → Table → Table × Result Row)
      → P o.0
      → ((e : AuditError) (t : Table) → P t → P (again e t).0)
      → P (next o again).0
  next_inv (t, inl result) again h k = h
  next_inv (t, inr e) again h k = k e t h

  pub append_loop_inv :
      (k i : ℕ) (env : ℕ → Attempt) (g : Gated) (last : AuditError) (t : Table)
      → ((j : ℕ) → All (λ o. IsGated p o.1) (env j).others)
      → IsGated p g
      → P t
      → P (append_loop p k i env g last t).0
  unfolding append_loop
  append_loop_inv zero i env g last t hs hg h = h
  append_loop_inv (suc k) i env g last t hs hg h =
      next_inv (attempt p (env i) g t) (append_loop p k (i + 1) env g)
        (attempt_inv (env i) g t (hs i) hg h) λ e t'. append_loop_inv k (i + 1) env g e t' hs hg
