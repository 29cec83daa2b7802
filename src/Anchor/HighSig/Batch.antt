-- ===== src/Anchor/HighSig/Batch.antt =====
-- The results of a batch of apps/worker-anchor/src/high-sig-loop.ts.
