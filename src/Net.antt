-- ===== src/Net.antt =====
-- The host-side address pool of `crate run` (lib/ip_alloc_pure.{h,cpp}).
pub mod Syntax
pub mod Ipv4
pub mod Pool
pub mod LeaseLine
