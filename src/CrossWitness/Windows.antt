-- ===== src/CrossWitness/Windows.antt =====
-- The windowed sweep of the cross-witness verifier, against one sweep.
