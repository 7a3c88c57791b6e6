-- ===== src/ControlPlane.antt =====
-- The control plane's side of the server pool (internal/controlplane, internal/proto/nodev1).
pub mod Messages
pub mod NodeManager
mod Tests
