-- ===== src/Types.antt =====
-- KanchoNet/Types.h: the handles, the constants and the enumerations that the parts share.
use kancho_net.Common.{ℕ, ◌^◌, ◌-◌}

-- `SocketHandle` is an `int` on Linux: a number below 2^32 stands for its bit pattern, and the
-- invalid handle is -1.
abbrev pub Socket : Type 0
Socket = ℕ

abbrev pub invalid_socket : Socket
invalid_socket = 2 ^ 32 - 1

abbrev pub SessionId : Type 0
SessionId = ℕ

abbrev pub invalid_session_id : SessionId
invalid_session_id = 0

abbrev pub default_buffer_size : ℕ
default_buffer_size = 8192

pub data SessionState : Type 0 where
  idle connected disconnecting disconnected : SessionState

pub data IoOperation : Type 0 where
  accept receive send disconnect : IoOperation

-- `ErrorCode` and the numbers of its values.
pub data ErrorCode : Type 0 where
  no_error initialize_failed already_initialized not_initialized socket_create_failed
        socket_bind_failed socket_listen_failed socket_accept_failed socket_connect_failed
        socket_close_failed socket_option_failed send_failed receive_failed disconnect_failed
        iocp_create_failed iocp_associate_failed iocp_get_queued_failed iocp_post_queued_failed
        rio_not_supported rio_load_failed rio_create_cq_failed rio_create_rq_failed
        rio_register_buffer_failed rio_dequeue_completion_failed epoll_create_failed
        epoll_ctl_failed epoll_wait_failed iouring_not_supported iouring_setup_failed
        iouring_submit_failed iouring_wait_failed iouring_register_failed session_not_found
        session_limit_reached invalid_session_state buffer_overflow buffer_underflow
        invalid_buffer_size invalid_parameter out_of_memory operation_aborted timeout_error
        unknown_error :
      ErrorCode

unfoldable pub number : ErrorCode → ℕ
number no_error = 0
number initialize_failed = 1000
number already_initialized = 1001
number not_initialized = 1002
number socket_create_failed = 2000
number socket_bind_failed = 2001
number socket_listen_failed = 2002
number socket_accept_failed = 2003
number socket_connect_failed = 2004
number socket_close_failed = 2005
number socket_option_failed = 2006
number send_failed = 3000
number receive_failed = 3001
number disconnect_failed = 3002
number iocp_create_failed = 4000
number iocp_associate_failed = 4001
number iocp_get_queued_failed = 4002
number iocp_post_queued_failed = 4003
number rio_not_supported = 5000
number rio_load_failed = 5001
number rio_create_cq_failed = 5002
number rio_create_rq_failed = 5003
number rio_register_buffer_failed = 5004
number rio_dequeue_completion_failed = 5005
number epoll_create_failed = 5100
number epoll_ctl_failed = 5101
number epoll_wait_failed = 5102
number iouring_not_supported = 5200
number iouring_setup_failed = 5201
number iouring_submit_failed = 5202
number iouring_wait_failed = 5203
number iouring_register_failed = 5204
number session_not_found = 6000
number session_limit_reached = 6001
number invalid_session_state = 6002
number buffer_overflow = 7000
number buffer_underflow = 7001
number invalid_buffer_size = 7002
number invalid_parameter = 8000
number out_of_memory = 8001
number operation_aborted = 8002
number timeout_error = 8003
number unknown_error = 9999
