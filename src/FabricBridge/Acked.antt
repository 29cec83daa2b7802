-- ===== src/FabricBridge/Acked.antt =====
-- Which messages the handler acknowledges.
