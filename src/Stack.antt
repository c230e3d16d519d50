-- ===== src/Stack.antt =====
-- Stack files, which start several containers together: lib/stack_pure.{h,cpp}.
pub mod Topo
pub mod Inject
pub mod Policy
