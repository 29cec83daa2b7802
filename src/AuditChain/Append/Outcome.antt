-- ===== src/AuditChain/Append/Outcome.antt =====
-- The outcome of HashChain.append: the table that it leaves, and the event that it returns.
use vigil_apex_f.Common.{
  ℕ, ◌≤◌, ◌≡◌, refl, ap, Bool-cases, inl, inr, List, [], ◌∷◌, ◌++◌, Text, All, ltb,
}
use vigil_apex_f.AuditChain.Platform.{Platform, Laws}
use vigil_apex_f.AuditChain.Store.{Row, Table, tail_row}
use vigil_apex_f.AuditChain.Chain.{IsChain}
use vigil_apex_f.AuditChain.Append.{
  Result, ok, err, AppendInput, Gated, Attempt, unset, seq_hard_cap, next_seq, kept, row_after,
  stored, insert_next, append, prepare,
}
use vigil_apex_f.AuditChain.Append.Laws.{IsGated, insert_next-IsChain, append_loop_inv}
use vigil_apex_f.AuditChain.Append.Gate.{prepare-IsGated}

-- A table that continues another one.
abbrev pub Extends : Table → Table → Type 0
Extends t t' = (new : List Row) × (t' ≡ new ++ t)

abbrev pub OthersAreGated : Platform → (ℕ → Attempt) → Type 0
OthersAreGated p env = (i : ℕ) → All (λ o. IsGated p o.1) (env i).others

-- `r` is what the gated fields become on top of the table below it.
pub record IsLatest (p : Platform) (g : Gated) (t : Table) (r : Row) : Type 0 where
  pub below : Table
  pub id : Text
  pub placed : r ≡ row_after p (tail_row below) id g
  pub on_top : t ≡ stored p r ∷ below
  pub seq_safe : r.seq ≤ seq_hard_cap

module _ (p : Platform) where
  Extends-insert_next :
      (t0 t : Table) (id : Text) (g : Gated)
      → IsGated p g
      → Extends t0 t
      → Extends t0 (kept t (insert_next p t id g))
  unfolding insert_next
  Extends-insert_next t0 t id g hg (new, e) =
      elim (Bool-cases (ltb seq_hard_cap (next_seq (tail_row t)))) [
        | inl over ↦ rw over (new, e)
        | inr safe ↦ rw safe (
          stored p (row_after p (tail_row t) id g) ∷ new,
          ap (λ u. stored p (row_after p (tail_row t) id g) ∷ u) e,
        )
      ]

module _ (p : Platform) (laws : Laws p) (now : Text) (env : ℕ → Attempt) (input : AppendInput)
    (t : Table) (others : OthersAreGated p env) where
  append_inv {κ} :
      (P : Table → Type κ)
      → ((t : Table) (id : Text) (g : Gated)
          → IsGated p g
          → P t
          → P (kept t (insert_next p t id g)))
      → P t
      → P (append p now env input t).0
  unfolding append
  append_inv P grow h = go (prepare p now input) refl
    where
      go : (r : Result Gated) → prepare p now input ≡ r → P (append p now env input t).0
      go (err e) eq = rw (eq, append) h
      go (ok g) eq =
          rw (eq, append)
            (append_loop_inv p P grow 3 0 env g unset t others (prepare-IsGated p laws now input eq)
              h)

  -- Whatever becomes of the attempts, and whatever other writers commit between them, the table
  -- is a hash chain again, and only has rows added to it.
  pub append-IsChain :
      IsChain p t → IsChain p (append p now env input t).0 × Extends t (append p now env input t).0
  append-IsChain c = (
    append_inv (IsChain p) (λ t id g hg h. insert_next-IsChain p laws t id g h hg) c,
    append_inv (Extends t) (Extends-insert_next p t) ([], refl),
  )
