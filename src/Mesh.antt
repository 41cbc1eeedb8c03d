-- ===== src/Mesh.antt =====
-- The peer-to-peer mesh, netpulse/p2p_core: neighbour tables, routing and sessions.
pub mod Neighbors
pub mod Router
pub mod Sessions
pub mod Certs
pub mod Node
mod Samples
