-- ===== src/Loop/Termination.antt =====
-- src/loop/termination.ts: the token budget and the stuck detector.
-- The fingerprint of an action, FNV-1a over a printed JSON value, is a function argument here: the
-- detector uses it only through the texts that it returns.
pub mod Budget
pub mod Detector
