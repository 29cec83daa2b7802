-- ===== src/Anchor/Mirror.antt =====
-- The commit loop of apps/worker-anchor/src/index.ts when no INSERT is lost.
use vigil_apex_f.Common.{
  ℕ, ◌+◌, ◌-◌, ◌*◌, ◌^◌, ◌≤◌, ◌<◌, ◌≡◌, refl, ◌∙◌, ◌⊎◌, inl, inr, min, max, true, false, Option,
  none, some, List, [], ◌∷◌, ◌++◌, Text, arith, length, ltb, leb, text_eq, to_lower, All,
  Bool-cases,
}
use vigil_apex_f.AuditChain.Store.{Table, Tail, tail}
use vigil_apex_f.Chaincode.{hex64, zeros}
use vigil_apex_f.Ledger.{Commitment}
use vigil_apex_f.Ledger.Merkle.{compute_merkle_root, compute_merkle_root-IsRoot}
use vigil_apex_f.Anchor.{
  VigilAnchor, is_contiguous, contract_commit, send, commit, last_anchored_to, World, Moment,
  Ticked, after_commit, anchor_range, anchor_tick, anchor_ticks,
}

-- Ranges one after the other, each of at most a batch, from one seq to another.
abbrev pub Spans : ℕ → List Commitment → ℕ → Type 0
Spans from [] last = last + 1 ≡ from
Spans from (c ∷ cs) last =
    (c.from_seq ≡ from)
    × (from ≤ c.to_seq)
    × (c.to_seq < from + 100000)
    × Spans (c.to_seq + 1) cs last

Spans-append :
    (from last to : ℕ) (cs : List Commitment) (root : Text)
    → Spans from cs last
    → last + 1 ≤ to
    → to < last + 1 + 100000
    → Spans from (cs ++ (record { from_seq = last + 1; to_seq = to; root_hash = root } ∷ [])) to
Spans-append from last to [] root s low high =
    (s, omega (arith, s, low), omega (arith, s, high), refl)
Spans-append from last to (c ∷ cs) root (a, b, d, s) low high =
    (a, b, d, Spans-append (c.to_seq + 1) last to cs root s low high)

-- The rows and the contract agree, and the contract covers the log from its first row.
pub record Mirrors (w : World) : Type 0 where
  pub cursors_agree : last_anchored_to w.rows ≡ w.contract.last_to_seq
  pub covered : Spans 1 w.contract.commitments w.contract.last_to_seq

Spans-contiguous :
    (cs : List Commitment) (last : ℕ) → Spans 1 cs last → is_contiguous cs last (last + 1) ≡ true
Spans-contiguous [] last s = ground (arith, s)
Spans-contiguous (c ∷ cs) last s = ground arith

-- The roots of the log are digests, and none is all zeros.
pub record HasRoots (node : Text → Text → Text) (empty : Text) (t : Table) : Type 0 where
  pub hex_root :
      (from to : ℕ) (root : Text)
      → compute_merkle_root node empty from to t ≡ some root
      → hex64 (to_lower root) ≡ true
  pub root_not_zero :
      (from to : ℕ) (root : Text)
      → compute_merkle_root node empty from to t ≡ some root
      → text_eq (to_lower root) (zeros 64) ≡ false

-- The contract takes the next range.
contract_commit-next :
    (to : ℕ) (root : Text) (a : VigilAnchor)
    → Spans 1 a.commitments a.last_to_seq
    → a.last_to_seq + 1 ≤ to
    → to < a.last_to_seq + 1 + 100000
    → text_eq root (zeros 64) ≡ false
    → contract_commit true (a.last_to_seq + 1) to root a
      ≡ inr (record {
        commitments =
            a.commitments
            ++ (record { from_seq = a.last_to_seq + 1; to_seq = to; root_hash = root } ∷ []);
        last_to_seq = to;
      })
unfolding contract_commit
contract_commit-next to root a s low high non_zero =
    let fits : ltb to (a.last_to_seq + 1) ≡ false = ground (arith, low) in
    let narrow : ltb 1000000 (to + 1 - (a.last_to_seq + 1)) ≡ false = ground (arith, high) in
    rw (fits, non_zero, narrow, Spans-contiguous a.commitments a.last_to_seq s) refl

module _ (node : Text → Text → Text) (empty : Text) where
  -- The world at the end of a tick from a range: as before, or with the range on both sides.
  abbrev Moved : World → ℕ → World → Type 0
  Moved w to w' = Mirrors w' × ((w' ≡ w) ⊎ (w'.contract.last_to_seq ≡ to))

  -- The network takes the transaction, and the row is inserted.
  pub record IsGood (m : Moment) : Type 0 where
    pub insert_good : m.insert_ok ≡ true
    pub gas_low : m.net.gas_high ≡ false
    pub tx_hash : Text
    pub broadcast : m.net.sent ≡ some tx_hash

  after_send :
      (sent : Option Text) (to : ℕ) (root : Text) (w : World)
      → Mirrors w
      → w.contract.last_to_seq + 1 ≤ to
      → to < w.contract.last_to_seq + 1 + 100000
      → text_eq (to_lower root) (zeros 64) ≡ false
      → let from = w.contract.last_to_seq + 1 in
        let w' = (after_commit from to root true w.rows (send sent from to root w.contract)).0 in
        Moved w to w' × ((h : Text) → sent ≡ some h → w'.contract.last_to_seq ≡ to)
  after_send none to root w m low high non_zero = ((m, inl refl), λ h e. cc e)
  after_send (some tx_hash) to root w m low high non_zero =
      let next = contract_commit-next to (to_lower root) w.contract m.covered low high non_zero in
      rw next (
        (
          record {
            cursors_agree = omega (arith, m.cursors_agree, low);
            covered =
                Spans-append 1 w.contract.last_to_seq to w.contract.commitments (to_lower root)
                  m.covered low high;
          },
          inr refl,
        ),
        λ h e. refl,
      )

  -- The next range of a world, up to a seq.
  commit-Moved :
      (m : Moment) (to : ℕ) (root : Text) (w : World)
      → Mirrors w
      → w.contract.last_to_seq + 1 ≤ to
      → to < w.contract.last_to_seq + 1 + 100000
      → to ≤ 2 ^ 53 - 1
      → hex64 (to_lower root) ≡ true
      → text_eq (to_lower root) (zeros 64) ≡ false
      → m.insert_ok ≡ true
      → let from = w.contract.last_to_seq + 1 in
        let w' =
          (after_commit from to root m.insert_ok w.rows (commit m.net from to root w.contract)).0 in
        Moved w to w' × (IsGood m → w'.contract.last_to_seq ≡ to)
  unfolding commit
  commit-Moved m to root w mirrors low high safe hex non_zero ins =
      let from = w.contract.last_to_seq + 1 in
      let positive : ltb from 1 ≡ false = ground arith in
      let fits : ltb to from ≡ false = ground (arith, low) in
      let in_range : ltb (2 ^ 53 - 1) to ≡ false = ground (arith, safe) in
      rw (positive, fits, in_range, hex, ins)
        (elim (Bool-cases m.net.gas_high) [
          | inl gas ↦ rw gas ((mirrors, inl refl), λ good. cc (good.gas_low))
          | inr cheap ↦
              let (moved, sends) = after_send m.net.sent to root w mirrors low high non_zero in
              rw cheap (moved, λ good. sends good.tx_hash good.broadcast)
        ])

  anchor_range-Moved :
      (m : Moment) (to : ℕ) (w : World)
      → HasRoots node empty m.log
      → Mirrors w
      → w.contract.last_to_seq + 1 ≤ to
      → to < w.contract.last_to_seq + 1 + 100000
      → to ≤ 2 ^ 53 - 1
      → m.insert_ok ≡ true
      → (w' : World) × (ticked : Ticked) × (anchor_range node empty m
            (w.contract.last_to_seq + 1)
            to
            w
          ≡ some (w', ticked))
        × Moved w to w'
        × (IsGood m → w'.contract.last_to_seq ≡ to)
  unfolding anchor_range
  anchor_range-Moved m to w roots mirrors low high safe ins =
      let from = w.contract.last_to_seq + 1 in
      let (root, e, shape) = compute_merkle_root-IsRoot node empty from to m.log in
      let after =
        after_commit from to root m.insert_ok w.rows (commit m.net from to root w.contract) in
      let (moved, good) =
        commit-Moved m to root w mirrors low high safe (roots.hex_root from to root e)
          (roots.root_not_zero from to root e) ins in
      (after.0, after.1, rw (anchor_range, e) refl, moved, good)

  -- Where the contract stands after a tick that goes through.
  abbrev pub next_seq : ℕ → ℕ → ℕ
  next_seq tail_seq seen = max seen (min tail_seq (seen + 100000))

  -- A tick on a log whose tail is known.
  anchor_tick-Mirrors :
      (m : Moment) (last : Tail) (w : World)
      → tail m.log ≡ some last
      → last.seq ≤ 2 ^ 53 - 1
      → HasRoots node empty m.log
      → m.insert_ok ≡ true
      → Mirrors w
      → (w' : World) × (ticked : Ticked) × (anchor_tick node empty m w ≡ some (w', ticked))
        × Mirrors w'
        × (IsGood m → w'.contract.last_to_seq ≡ next_seq last.seq w.contract.last_to_seq)
  unfolding anchor_tick
  anchor_tick-Mirrors m last w at safe roots ins mirrors =
      let seen = w.contract.last_to_seq in
      let to = min last.seq (seen + 1 + 100000 - 1) in
      rw (at, mirrors.cursors_agree)
        (elim (Bool-cases (leb last.seq seen)) [
          | inl done ↦ rw done (w, _, refl, mirrors, λ good. ground (arith, done))
          | inr more ↦
              let (w', ticked, e, moved, good) =
                anchor_range-Moved m to w roots mirrors (ground (arith, more))
                  (ground (arith, more)) (omega (arith, safe)) ins in
              rw more (w', ticked, e, moved.0, λ g. good g ∙ ground (arith, more))
        ])

  -- What a moment shows of a log up to a seq, with an INSERT that succeeds.
  pub record Sees (tail_seq : ℕ) (m : Moment) : Type 0 where
    pub tail_hash : Text
    pub tail_at : tail m.log ≡ some (record { seq = tail_seq; body_hash = tail_hash })
    pub tail_safe : tail_seq ≤ 2 ^ 53 - 1
    pub has_roots : HasRoots node empty m.log
    pub inserted : m.insert_ok ≡ true

  -- The ticks that go through bring the contract to the end of the log: one tick for every batch.
  pub anchor_ticks-reach :
      (tail_seq : ℕ) (ms : List Moment) (w : World)
      → All (λ m. Sees tail_seq m × IsGood m) ms
      → Mirrors w
      → tail_seq ≤ w.contract.last_to_seq + length ms * 100000
      → (w' : World) × (anchor_ticks node empty ms w ≡ some w')
        × Mirrors w'
        × (w'.contract.last_to_seq ≡ max w.contract.last_to_seq tail_seq)
  unfolding anchor_ticks
  anchor_ticks-reach n [] w h mirrors enough = (w, refl, mirrors, omega (arith, enough))
  anchor_ticks-reach n (m ∷ ms) w ((sees, good), hs) mirrors enough =
      let (w', ticked, e, mirrors', moved) =
        anchor_tick-Mirrors m _ w sees.tail_at sees.tail_safe sees.has_roots sees.inserted
          mirrors in
      let at = moved good in
      let (end, e', done, reached) =
        anchor_ticks-reach n ms w' hs mirrors' (omega (arith, at, enough)) in
      (end, rw (anchor_ticks, e) e', done, omega (arith, at, reached))
