-- ===== src/Nodes/Tests.antt =====
-- Concrete runs of the mod/nodes models, and their theorems at concrete inputs.
pub mod BigEndian
mod FramesTests
mod BuffersTests
pub mod AssocMap
pub mod ListSet
mod RoutingTests
mod SessionTests
mod MuxTests
mod MigrationTests
