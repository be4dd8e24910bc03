-- ===== src/Request/Tests.antt =====
-- The theorems on request/mod.rs at a request of a hub's descriptor.
