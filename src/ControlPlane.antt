-- ===== src/ControlPlane.antt =====
-- apps/control-plane/src: the authentication of requests between the control plane and an agent.
pub mod Header
pub mod Numerals
pub mod Nonces
pub mod ServiceAuth
