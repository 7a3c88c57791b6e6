-- ===== src/Mesh.antt =====
-- The node mesh (internal/mesh): the subnet allocator.
pub mod Net
pub mod Allocator
mod Tests
