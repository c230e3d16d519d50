-- ===== src/Daemon.antt =====
-- The daemon's own parts: daemon/, and the pure code of lib/ that its HTTP plane uses.
pub mod RateLimit
pub mod Auth
pub mod Pools
pub mod Frames
