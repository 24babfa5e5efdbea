-- ===== src/Logger/Names.antt =====
-- KanchoNet/Utils/Logger.cpp, GetErrorCodeString: which error codes have a name.
use text.Mathlib.Text.{◌==◌ as str_eq}
use text.Mathlib.TextEquality.{eq_iff}
use kancho_net.Common.{◌≤◌, ◌<◌, ◌≡◌, ◌↔◌, true, arith}
use kancho_net.Types.{
  ErrorCode, number, epoll_create_failed, epoll_ctl_failed, epoll_wait_failed,
  iouring_not_supported, iouring_setup_failed, iouring_submit_failed, iouring_wait_failed,
  iouring_register_failed,
}
use kancho_net.Logger.{error_code_string}

nameless :
    (c : ErrorCode)
    → str_eq (error_code_string c) "UnknownErrorCode" ≡ true
    → (5100 ≤ number c) × (number c < 5300)
unfolding error_code_string number
nameless epoll_create_failed h = omega arith
nameless epoll_ctl_failed h = omega arith
nameless epoll_wait_failed h = omega arith
nameless iouring_not_supported h = omega arith
nameless iouring_setup_failed h = omega arith
nameless iouring_submit_failed h = omega arith
nameless iouring_wait_failed h = omega arith
nameless iouring_register_failed h = omega arith
nameless _ h = cc

named :
    (c : ErrorCode) → 5100 ≤ number c → number c < 5300 → error_code_string c ≡ "UnknownErrorCode"
unfolding error_code_string number
named _ h k = ground arith

-- The logger has no name of its own for exactly the error codes of the epoll and io_uring models, which
-- are those from 5100 to 5299.
pub nameless_iff :
    (c : ErrorCode)
    → (error_code_string c ≡ "UnknownErrorCode") ↔ ((5100 ≤ number c) × (number c < 5300))
nameless_iff c =
    (λ e. nameless c ((eq_iff (error_code_string c) "UnknownErrorCode").1 e), λ h. named c h.0 h.1)
