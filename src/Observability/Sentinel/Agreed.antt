-- ===== src/Observability/Sentinel/Agreed.antt =====
-- The decision on the reports of three sentinels, and when a run emits an audit row.
use vigil_apex_f.Common.{
  ℕ, ◌+◌, ◌≤◌, ◌≡◌, ◌↔◌, refl, true, false, Option, none, some, List, [], ◌∷◌, ◌++◌, map, Text, leb,
  leb→le, le→leb, lt→leb_false, length, arith, Bool-cases, inl, inr,
}
use vigil_apex_f.Observability.Sentinel.{
  Site, SentinelOutcome, up, down, unknown, SentinelReport, is_up, is_down, QuorumDecision,
  is_outcome, count, sites, decided, quorum_decide, EmitOutageResult, with_emit, after_decision,
  run_sentinel_quorum,
}

count-append :
    (o : SentinelOutcome) (xs ys : List SentinelReport)
    → count o (xs ++ ys) ≡ count o xs + count o ys
count-append o [] ys = omega arith
count-append o (r ∷ xs) ys = elim (Bool-cases (is_outcome o r)) [
  | inl on ↦ rw on (omega (arith, count-append o xs ys))
  | inr off ↦ rw off (count-append o xs ys)
]

-- Every report has one outcome.
pub count-partition :
    (reports : List SentinelReport)
    → count up reports + count down reports + count unknown reports ≡ length reports
count-partition [] = omega arith
count-partition (r ∷ reports) = go (count-partition reports) r.outcome refl
  where
    go :
        count up reports + count down reports + count unknown reports ≡ length reports
        → (o : SentinelOutcome) → r.outcome ≡ o
        → count up (r ∷ reports) + count down (r ∷ reports) + count unknown (r ∷ reports)
          ≡ length (r ∷ reports)
    go rest up e = rw e (omega (arith, rest))
    go rest down e = rw e (omega (arith, rest))
    go rest unknown e = rw e (omega (arith, rest))

count-cons :
    (o : SentinelOutcome) (r : SentinelReport) (reports : List SentinelReport)
    → (count o reports ≤ count o (r ∷ reports)) × (count o (r ∷ reports) ≤ count o reports + 1)
count-cons o r reports = elim (Bool-cases (is_outcome o r)) [
  | inl on ↦ rw on (omega arith, omega arith)
  | inr off ↦ rw off (omega arith, omega arith)
]

-- Of three reports, two that agree decide: whatever the third says and wherever it stands, the
-- decision is down exactly when the two say down, and up exactly when they say up.
pub quorum_decide_agreed :
    (o : SentinelOutcome) (xs ys : List SentinelReport) (r : SentinelReport)
    → length xs + length ys ≡ 2
    → count o xs + count o ys ≡ 2
    → let d = (quorum_decide (xs ++ r ∷ ys)).decision in
      ((d ≡ is_down) ↔ (o ≡ down)) × ((d ≡ is_up) ↔ (o ≡ up))
unfolding quorum_decide
quorum_decide_agreed o xs ys r three agreed = go o agreed
  where
    downs : ℕ
    downs = count down (xs ++ r ∷ ys)

    ups : ℕ
    ups = count up (xs ++ r ∷ ys)

    go :
        (o : SentinelOutcome)
        → count o xs + count o ys ≡ 2
        → let d = (quorum_decide (xs ++ r ∷ ys)).decision in
          ((d ≡ is_down) ↔ (o ≡ down)) × ((d ≡ is_up) ↔ (o ≡ up))
    go down two =
        let many : leb 2 downs ≡ true =
          le→leb 2 downs
            (omega (arith, count-append down xs (r ∷ ys), (count-cons down r ys).0, two)) in
        rw many ((λ e. refl, λ e. refl), (λ e. cc e, λ e. cc e))
    go up two =
        let few : leb 2 downs ≡ false = lt→leb_false 2 downs (
          omega (
            arith,
            count-append down xs (r ∷ ys),
            (count-cons down r ys).1,
            two,
            three,
            count-partition xs,
            count-partition ys,
          )) in
        let many : leb 2 ups ≡ true =
          le→leb 2 ups (omega (arith, count-append up xs (r ∷ ys), (count-cons up r ys).0, two)) in
        rw (few, many) ((λ e. cc e, λ e. cc e), (λ e. refl, λ e. refl))
    go unknown two =
        let few : leb 2 downs ≡ false = lt→leb_false 2 downs (
          omega (
            arith,
            count-append down xs (r ∷ ys),
            (count-cons down r ys).1,
            two,
            three,
            count-partition xs,
            count-partition ys,
          )) in
        let few' : leb 2 ups ≡ false = lt→leb_false 2 ups (
          omega (
            arith,
            count-append up xs (r ∷ ys),
            (count-cons up r ys).1,
            two,
            three,
            count-partition xs,
            count-partition ys,
          )) in
        rw (few, few') ((λ e. cc e, λ e. cc e), (λ e. cc e, λ e. cc e))

-- A run emits an audit row exactly when two of its probes or more say down.
pub run_sentinel_quorum_emitted :
    (probe : Site → Text → SentinelReport) (emit : QuorumDecision → Option EmitOutageResult)
    (endpoints : List Site) (target : Text)
    → let result = run_sentinel_quorum probe emit endpoints target in
      (result.emitted ≡ true) ↔ (2 ≤ count down (map (λ site. probe site target) endpoints))
unfolding run_sentinel_quorum quorum_decide
run_sentinel_quorum_emitted probe emit endpoints target =
    go (map (λ site. probe site target) endpoints)
  where
    with_emit_emitted :
        (d : QuorumDecision) (o : Option EmitOutageResult) → (with_emit target d o).emitted ≡ true
    with_emit_emitted d none = refl
    with_emit_emitted d (some r) = refl

    go :
        (reports : List SentinelReport)
        → let d = quorum_decide reports in
          ((after_decision target d emit d.decision).emitted ≡ true) ↔ (2 ≤ count down reports)
    go reports = elim (Bool-cases (leb 2 (count down reports))) [
      | inl many ↦ rw many (
        λ e. leb→le 2 (count down reports) many,
        λ le. with_emit_emitted _ (emit (decided reports is_down (sites down reports))),
      )
      | inr few ↦ elim (Bool-cases (leb 2 (count up reports))) [
        | inl ups ↦ rw (few, ups) (λ e. cc e, λ le. cc (few, le→leb 2 (count down reports) le))
        | inr rest ↦ rw (few, rest) (λ e. cc e, λ le. cc (few, le→leb 2 (count down reports) le))
      ]
    ]
