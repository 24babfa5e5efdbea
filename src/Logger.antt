-- ===== src/Logger.antt =====
-- KanchoNet/Utils/Logger.h and Logger.cpp: which messages are written, and how. The time of a line and the
-- expansion of a format are arguments; what is written is kept, newest first.
pub mod Lines
pub mod Names
use kancho_net.Common.{ℕ, List, [], ◌∷◌, Option, none, some, ltb, if◌then◌else◌, take}
use Prim.Native.String.{String}
use kancho_net.Types.{
  ErrorCode, no_error, initialize_failed, already_initialized, not_initialized,
  socket_create_failed, socket_bind_failed, socket_listen_failed, socket_accept_failed,
  socket_connect_failed, socket_close_failed, socket_option_failed, send_failed, receive_failed,
  disconnect_failed, iocp_create_failed, iocp_associate_failed, iocp_get_queued_failed,
  iocp_post_queued_failed, rio_not_supported, rio_load_failed, rio_create_cq_failed,
  rio_create_rq_failed, rio_register_buffer_failed, rio_dequeue_completion_failed,
  epoll_create_failed, epoll_ctl_failed, epoll_wait_failed, iouring_not_supported,
  iouring_setup_failed, iouring_submit_failed, iouring_wait_failed, iouring_register_failed,
  session_not_found, session_limit_reached, invalid_session_state, buffer_overflow,
  buffer_underflow, invalid_buffer_size, invalid_parameter, out_of_memory, operation_aborted,
  timeout_error, unknown_error,
}

pub data LogLevel : Type 0 where
  debug info warning error critical : LogLevel

unfoldable pub rank : LogLevel → ℕ
rank debug = 0
rank info = 1
rank warning = 2
rank error = 3
rank critical = 4

unfoldable pub level_string : LogLevel → String
level_string debug = "DEBUG"
level_string info = "INFO"
level_string warning = "WARNING"
level_string error = "ERROR"
level_string critical = "CRITICAL"

-- `GetErrorCodeString`
unfoldable pub error_code_string : ErrorCode → String
error_code_string no_error = "None"
error_code_string initialize_failed = "InitializeFailed"
error_code_string already_initialized = "AlreadyInitialized"
error_code_string not_initialized = "NotInitialized"
error_code_string socket_create_failed = "SocketCreateFailed"
error_code_string socket_bind_failed = "SocketBindFailed"
error_code_string socket_listen_failed = "SocketListenFailed"
error_code_string socket_accept_failed = "SocketAcceptFailed"
error_code_string socket_connect_failed = "SocketConnectFailed"
error_code_string socket_close_failed = "SocketCloseFailed"
error_code_string socket_option_failed = "SocketOptionFailed"
error_code_string send_failed = "SendFailed"
error_code_string receive_failed = "ReceiveFailed"
error_code_string disconnect_failed = "DisconnectFailed"
error_code_string iocp_create_failed = "IOCPCreateFailed"
error_code_string iocp_associate_failed = "IOCPAssociateFailed"
error_code_string iocp_get_queued_failed = "IOCPGetQueuedFailed"
error_code_string iocp_post_queued_failed = "IOCPPostQueuedFailed"
error_code_string rio_not_supported = "RIONotSupported"
error_code_string rio_load_failed = "RIOLoadFailed"
error_code_string rio_create_cq_failed = "RIOCreateCQFailed"
error_code_string rio_create_rq_failed = "RIOCreateRQFailed"
error_code_string rio_register_buffer_failed = "RIORegisterBufferFailed"
error_code_string rio_dequeue_completion_failed = "RIODequeueCompletionFailed"
error_code_string session_not_found = "SessionNotFound"
error_code_string session_limit_reached = "SessionLimitReached"
error_code_string invalid_session_state = "InvalidSessionState"
error_code_string buffer_overflow = "BufferOverflow"
error_code_string buffer_underflow = "BufferUnderflow"
error_code_string invalid_buffer_size = "InvalidBufferSize"
error_code_string invalid_parameter = "InvalidParameter"
error_code_string out_of_memory = "OutOfMemory"
error_code_string operation_aborted = "OperationAborted"
error_code_string timeout_error = "TimeoutError"
error_code_string unknown_error = "UnknownError"
error_code_string _ = "UnknownErrorCode"

-- What is kept of a line: the level as it is written, and the message.
pub record Line : Type 0 where
  pub level : String
  pub message : List ℕ

pub record Logger : Type 0 where
  pub current : LogLevel
  pub lines : List Line

abbrev pub created : Logger
created = record { current = info; lines = [] }

unfoldable pub set_log_level : LogLevel → Logger → Logger
set_log_level level l = record l { current = level }

unfoldable pub log : LogLevel → List ℕ → Logger → Logger
log level message l =
    if ltb (rank level) (rank l.current)
    then l
    else record l { lines = record { level = level_string level; message = message } ∷ l.lines }

-- `vsnprintf` into 1024 bytes, the last of which is the terminator.
abbrev pub fitted : List ℕ → List ℕ
fitted = take 1023

-- `LogDebug`, `LogInfo`, `LogWarning` and `LogError`, which differ in the level alone.
unfoldable pub log_at : LogLevel → List ℕ → Logger → Logger
log_at level message l =
    if ltb (rank level) (rank l.current) then l else log level (fitted message) l

unfoldable pub log_critical : List ℕ → Logger → Logger
log_critical message l = log critical (fitted message) l

-- `LogErrorCode`. The two formats are arguments: what they make of the name and of the context.
unfoldable pub log_error_code :
    (String → List ℕ) → (String → List ℕ → List ℕ) → ErrorCode → Option (List ℕ) → Logger → Logger
log_error_code plain in_context code none l = log_at error (plain (error_code_string code)) l
log_error_code plain in_context code (some context) l =
    log_at error (in_context (error_code_string code) context) l
