-- ===== src/Lib.antt =====
-- ssh-agent-bridge, a daemon that relays requests of SSH clients to other SSH agents on Windows.
--
-- Listeners accept connections and hand them to a connection manager, which reads the requests and
-- posts them to the message dispatcher; its worker asks the upstream agents and the manager writes
-- the reply back. A configuration file and the command line say what is set up.
--
-- * Wire models src/protocol/protocol_ssh_helper.h and .cpp: `SshMessageEnvelope`, the functions of
--   `SshAgentMessageBufferReader` (Wire/Reader) and `SshAgentMessageBufferWriter` (Wire/Writer), each
--   under its own name in snake case. `size_t` and `uint32_t` wrap around. A read is done, refused, or
--   a fault (it would leave the vector).
-- * Agent models src/protocol/protocol_ssh_agent.h and .cpp: the message numbers, identities, the
--   four key formats and the identities answer, `FromBuffer` and `ToBuffer` of each.
-- * Dispatcher models src/message_dispatcher.h and .cpp: `ProcessRequest` and the handlers, with each
--   client a function on the state of a world, and in Dispatcher/Worker the queue: `PostRequest`,
--   `Start`, the worker thread one locked section at a time, `Stop` and the destructor. Any
--   interleaving of these steps is a `Runs`.
-- * Proxy models src/protocol/connection_manager/proxy.h and .cpp: `DoIoCompletion` with one function
--   for each state, `Dispose` and `PostMessageReply`. A step returns the context and what it asks of
--   the system. The listener's handshake is a parameter.
-- * Handshake models `DoHandshake` of src/protocol/cygwin/listener.cpp and
--   src/protocol/libassuan_socket_emulation/listener.cpp, with the data that the listener keeps for a
--   connection.
-- * Forwarding models `DoForward`, `PreparePeer`, `DoIoCompletion` and `Dispose` of
--   src/protocol/connection_manager/forwarding.h and .cpp, with the two peers of a connection.
-- * Listening models the loops that accept connections in src/protocol/unix/listener.cpp,
--   src/protocol/hyperv/listener.cpp and src/protocol/namedpipe/listener.cpp, over a script of what their waits
--   return.
-- * PageantListener models `ProcessRequest` of src/protocol/pageant/listener.cpp.
-- * Upstream models the clients: `SendSshMessage` of src/protocol/namedpipe/client.cpp,
--   src/protocol/libassuan_socket_emulation/client.cpp and, in Upstream/Pageant, src/protocol/pageant/client.cpp, with
--   the sends and reads of their connectors. What the other side does is a script: one entry for
--   each system call.
-- * Bridge puts a connection, the dispatcher and the clients together, and states the abstract relay
--   that they implement.
-- * SocketFile models the file of a libassuan socket: how src/protocol/libassuan_socket_emulation/listener.cpp writes it,
--   and how `Connect` of connector.cpp and `HandleConnection` of wsl2_helper/main.cpp read it.
-- * Wsl2Helper models wsl2_helper/main.cpp: the command line and the checks of `main`
--   (Wsl2Helper/Options), `SendBuffer`, `DoForward` and `GracefullyHup` (Wsl2Helper/Stream), and the
--   counting of sessions by signals (Wsl2Helper/Sessions).
-- * Lxperm models src/lxperm.cpp: the buffer of extended attributes that `EaInfoBuilder` lays out, and
--   what `SetLxPermissionByHandle` hands to the system.
-- * Util and CommandLine model what is pure of src/util.cpp, and src/cmdline_option.cpp.
-- * Ini models src/ini_parse.cpp, with the stream as the characters left and the end-of-file flag.
--   The loop has fuel: one round for each character and two more, since a round takes a character or
--   meets the end.
-- * Application models `Initialize` and the `Setup` functions of src/application.cpp; a listener or
--   client is the arguments of its constructor.
-- * Base has the names, tests and lemmas that the parts share.
--
-- Fuel elsewhere: `run_writes` in Proxy/Send takes as many rounds as the reply has bytes and one more,
-- since a write moves at least a byte. `align_up` in Lxperm takes three rounds, since a multiple of 4
-- is at most 3 away; `decimal` in SocketFile one more than the number, since each round divides it;
-- `query_image_name` in Upstream/Pageant counts its rounds, and Upstream/Pageant/Windows says how many
-- are enough. All other loops are structural.
--
-- Not modelled: the opening of pipes, sockets, windows and mappings, which are calls of the system; the
-- forks of the WSL2 helper, its pid file and its search of the default gateway; the completion port
-- threads; the notifier of virtual machines; logging; the service. The C library's `towlower` and
-- `iswblank`, `std::stoi`, UTF-8 conversion and the expansion of environment variables are parameters.
pub mod Base
pub mod Wire
pub mod Agent
pub mod Dispatcher
pub mod Proxy
pub mod Handshake
pub mod Forwarding
pub mod Application
pub mod Bridge
pub mod CommandLine
pub mod Ini
pub mod Listening
pub mod Lxperm
pub mod PageantListener
pub mod SocketFile
pub mod Upstream
pub mod Util
pub mod Wsl2Helper
