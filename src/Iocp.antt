-- ===== src/Iocp.antt =====
-- KanchoNet/Network/IOCPModel.h and IOCPModel.cpp: the model over I/O completion ports, on one thread that
-- calls `ProcessIO` and `Send`. Windows and the callbacks are parameters.
pub mod State
pub mod Post
pub mod Contexts
pub mod Posting
pub mod Sending
pub mod Complete
pub mod Sent
pub mod Gone
pub mod Listen
pub mod Down
pub mod Deaf
pub mod Lifecycle
pub mod Control
mod Tests
