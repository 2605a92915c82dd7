-- ===== src/Nodes/Buffers.antt =====
-- mod/nodes/src/input_buffer.go and output_buffer.go: the two ends of a session's flow control.
pub mod Wake
pub mod Input
pub mod Output
