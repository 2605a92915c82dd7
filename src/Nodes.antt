-- ===== src/Nodes.antt =====
-- mod/nodes: links between nodes, and the query sessions that a link multiplexes.
pub mod Frames
pub mod Buffers
pub mod Callbacks
pub mod Session
pub mod Mux
pub mod LinkPool
pub mod Routing
pub mod Migration
pub mod Flow
pub mod Tests
