-- ===== src/Edgeclient.antt =====
-- edgeclient/client.go: the device side of the edge protocol, with the constants of edge/edge.go.
pub mod Events
pub mod Protocol
pub mod Batch
pub mod Sync
pub mod Bearer
pub mod Follow
