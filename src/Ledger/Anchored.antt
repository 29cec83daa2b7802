-- ===== src/Ledger/Anchored.antt =====
-- The commitments that worker-anchor makes, as LedgerVerifier reads them.
use vigil_apex_f.AuditChain.Platform.{Platform}
