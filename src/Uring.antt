-- ===== src/Uring.antt =====
-- KanchoNet/Network/IOUringModel.h and IOUringModel.cpp: the io_uring network model, on one thread that
-- calls `ProcessIO` and `Send`. The library liburing, like the operating system and the callbacks, is a
-- parameter.
pub mod State
pub mod Sockets
pub mod Submit
pub mod Complete
pub mod Control
pub mod Gone
pub mod Locks
pub mod Lifecycle
pub mod Sending
pub mod Sent
mod Tests
