-- ===== src/Epoll/State.antt =====
-- KanchoNet/Network/EpollModel.h: the fields of the epoll model.
use kancho_net.Common.{ℕ, Option}
use kancho_net.Host.{Host}
use kancho_net.Host

-- The handle is `mEpollFd`, with -1 as `none`.
abbrev pub Epoll : Type 0 → Type 0
Epoll K = Host (Option ℕ) K

-- A method of the model, and the callbacks.
abbrev pub Run : Type 0 → Type 0 → Type 0
Run K A = Host.Run (Option ℕ) K A

abbrev pub App : Type 0 → Type 0
App K = Host.App (Option ℕ) K
