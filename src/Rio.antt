-- ===== src/Rio.antt =====
-- KanchoNet/Network/RIOModel.h and RIOModel.cpp: the model over registered I/O, on one thread that calls
-- `ProcessIO` and `Send`. Windows, its RIO functions and the callbacks are parameters.
pub mod State
pub mod Buffers
pub mod Registration
pub mod Post
pub mod Io
pub mod Sends
pub mod Quiet
pub mod Stalled
pub mod Control
mod Tests
