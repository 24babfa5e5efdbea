-- ===== src/Epoll.antt =====
-- KanchoNet/Network/EpollModel.h and EpollModel.cpp: the epoll network model, on one thread that
-- calls `ProcessIO` and `Send`. A method is a step on the model's state; the operating system and
-- the application's callbacks are parameters.
pub mod State
pub mod Sockets
pub mod Io
pub mod Control
pub mod Round
pub mod Fed
pub mod Stream
pub mod Gone
mod Tests
pub mod Down
pub mod Lifecycle
pub mod Events
pub mod Accept
pub mod Flush
pub mod Deliver
pub mod Enqueue
