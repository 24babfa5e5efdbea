-- ===== src/Lib.antt =====
-- KanchoNet, a C++ library for game servers: a model of its buffers, sessions and network models,
-- and proofs about them.
--
-- Parts. KanchoNet/Core/NetworkEngine drives a network model (epoll, io_uring, IOCP, RIO) and hands
-- its callbacks to the application. A network model owns a SessionManager, which owns the sessions
-- by their ids; each Session has a ring buffer for what is to be sent, under a spin lock. An
-- application sends PacketBuffers, which it may take from a BufferPool.
--
-- Files.
--   Common, Memory, Vector: lists over the native numbers, 64-bit sizes, memcpy between arrays, and
--     std::vector<uint8_t> with its capacity and the identity of its block.
--   Ring: KanchoNet/Buffer/RingBuffer; a function for each method, with size_t arithmetic. The result
--     none stands for undefined behaviour: a copy out of bounds or a division by zero. Ring/Queue
--     has the specification, a bounded queue of bytes.
--   Packet: KanchoNet/Buffer/PacketBuffer. Pool: KanchoNet/Buffer/BufferPool.
--   Config: KanchoNet/Core/EngineConfig. Types: KanchoNet/Types.h. Logger: KanchoNet/Utils/Logger.
--   Session: KanchoNet/Session/Session. Session/Lock: KanchoNet/Utils/SpinLock.h, with any number of
--     threads as interleaved steps of one relation.
--   Manager: KanchoNet/Session/SessionManager. An entry holds the session itself and its address, so
--     that a pointer can be read exactly while the session is owned.
--   Net: what the network models share: the answers of the operating system and the log. Host: the
--     fields that they share. A method takes the fields and gives an Outcome: a result and the new
--     fields, or fault for undefined behaviour, or hang for a spin lock that its own thread holds.
--     Host/Access has the reads and writes through a session pointer while the session lives.
--   Epoll: KanchoNet/Network/EpollModel. Uring: KanchoNet/Network/IOUringModel, with its contexts as
--     allocated memory.
--   Windows: the calls of Windows, and what KanchoNet/Network/SocketUtils makes of them. Iocp:
--     KanchoNet/Network/IOCPModel. Rio: KanchoNet/Network/RIOModel, with its arrays as allocated memory.
--   Sockets: the options in KanchoNet/Network/SocketUtils.
--   Engine: KanchoNet/Core/NetworkEngine over the record NetworkModel, which is INetworkModel.
--     Engine/Phases has the contract of a network model and the phases of an engine; Engine/OnEpoll
--     and Engine/OnIocp have the epoll and the IOCP model as network models.
--   Chat: Examples/ChatServer, whose callbacks take the users and the fields of the network model that calls
--     them; a fault is there also the end of the program by strcpy_s. Echo: Examples/EchoServer.
--
-- Parameters. The operating system is a record of functions on a state of its own (Net.Kernel), and
-- the callbacks are functions on the whole model (Host.App); what a theorem needs of them is a
-- named hypothesis (SendBound, Gentle, GivesSockets, NeverNull, IsRoomless). The Send of the engine and the
-- allocation of a user are parameters of the chat server. liburing, Windows and the functions of
-- registered I/O are records too (Uring.State.Liburing, Windows.Windows, Rio.State.Library). The
-- address of a new session comes from the operating system, where the memory comes from. A log
-- records what was asked of sockets.
--
-- Bounds and fuel. size_t is a number modulo 2 ^ 64, an int of Linux its 32-bit pattern, and a
-- SOCKET of Windows its 64-bit one. The loops of ProcessSend, ProcessReceive and ProcessAccept, and
-- that over the completions of io_uring, run on fuel. For ProcessSend, one round for each byte
-- queued and one more is enough. The others end when the operating system has nothing more to give,
-- which no count of the program bounds; without enough fuel they answer no_fuel.
--
-- Not modelled. The calls of the logger that the other parts make, except that a message reads the
-- session that it names; the time of a line of the log; in the network models the calls that set
-- options, whose answers the code does not use; the order in which an unordered_map is walked,
-- which is that of the entries here; threads other than at the spin lock: each method of a network
-- model is one step. Of RIOModel, AllocateContext and ProcessAcceptCompletion, which nothing calls.
-- What the examples write to the console, their main functions, and the example around generated
-- code.
pub mod Common
pub mod Memory
pub mod Ring
pub mod Vector
pub mod Windows
pub mod Sockets
pub mod Packet
pub mod Pool
pub mod Config
pub mod Types
pub mod Logger
pub mod Session
pub mod Manager
pub mod Net
pub mod Host
pub mod Epoll
pub mod Engine
pub mod Chat
pub mod Echo
pub mod Uring
pub mod Iocp
pub mod Rio
