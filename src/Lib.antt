-- ===== src/Lib.antt =====
-- Veltix: a verification of the messaging library in src/veltix.
--
-- A client and a server exchange framed messages over TCP. The parts that are modelled, with the
-- files of src/veltix that they translate:
--   * Exceptions, Internal/Events: exceptions.py, internal/events.py. An emission on the bus is an
--     entry of a trace.
--   * Internal/Version: internal/compatibility.py, and the version check of
--     handler/handshake_handler.py.
--   * Network/Types, Network/SystemTypes: network/types.py, network/system_types.py. The registry of
--     message types, a class attribute there, is passed along as a state.
--   * Network/IdAllocator: network/id_allocator.py.
--   * Network/Request, Network/Response, Network/Parser: the modules of those names, constants.py,
--     flags.py, utils/encoding.py. Network/Wire relates compile and parse.
--   * Network/MessageBuffer: network/message_buffer.py, which cuts the TCP stream into messages.
--   * Network/Sender: network/sender.py, over an interface Transport of sockets.
--   * Handler/RequestHandler, Handler/Rules: handler/request_handler.py, callback_executor.py,
--     rules.py, rules_manager.py: what a received message sets off. Handler/Routes: how a new request
--     handler takes the callbacks of an old one over.
--   * Handler/Handshake: handler/handshake_handler.py; its child Client is the client's role.
--   * Client/Connection, Client/State, Client/Requests, Client/Reconnect: client/client.py,
--     disconnect.py, reconnect_handler.py.
--   * Server/ClientInfo: server/client_info.py.
--   * Server/Lifecycle, Server/Requests: server/server.py, over the interface SocketCore/BaseSocket;
--     Lifecycle/Service is the abstract machine of start, close_all and restart.
--   * SocketCore/ClientsManager: socket_core/managers/clients_manager.py.
--   * SocketCore/BaseSocket: socket_core/base_socket.py, a record of operations and of the laws that
--     the server relies on; its instances are in Core of the two cores.
--   * SocketCore/ThreadingSocket: socket_core/threading_socket.py: the accept loop and closing; its
--     children Serving and Connecting are the receive loops of the two sides.
--   * SocketCore/AsyncSocket: socket_core/async_socket.py: the selector as what it watches, and
--     closing; its child Connecting is the client's connection, and Accepting and Events are the
--     selector's thread.
--   * Internal/Recv: internal/network.py.
--   * Logger: logger/core.py, levels.py.
-- Prelude has the Boolean tests, lists, dictionaries, bytes, text and results that they share, and
-- Tests the sample data, tests, and the theorems at concrete inputs.
--
-- The bytes that a socket receives go to a MessageBuffer, whose extract_messages calls the parser;
-- each response goes to RequestHandler.handle, whose rules answer a PING by the Sender, satisfy a
-- pending request, or hand a callback to the thread pool. A Sender compiles a request and hands the
-- frame to a socket. The client's retry loop replaces its socket, sender and request handler at each
-- attempt. A server hands its request handler to a socket core, which accepts clients, does their
-- handshakes, keeps a buffer per client in its ClientsManager, and calls the request handler.
--
-- How state, errors and threads are written: a method that changes an object takes the object as a
-- record and returns it; an exception is a value of Result; a method that holds a lock is one step,
-- and where other threads come in between, the model takes what they do as an argument (Round of
-- Client/Reconnect), as a list of steps (handle_all of Handler/Rules/Pending, Arrival and Round of
-- the socket cores) or as a step relation (SocketCore/ThreadingSocket/Limit). A call of the operating
-- system is an argument, what it comes to; a loop that waits for one runs on the list of its results.
-- What close of a socket answers is an argument of the client's operations that call it. The metadata
-- of a handshake are any JSON value; an id_window in them that is no number is written as 0, since
-- allocate raises with either.
--
-- Parameters: CRC-32, UTF-8 and JSON (the record Codec), the sockets (Transport), and for the
-- handshake the raw socket and JSON (Peer); the model does not look into their worlds. No law of them
-- is assumed beyond what a theorem names.
--
-- Fuel: extract_loop of Network/MessageBuffer runs on the length of the buffer and one more, which is
-- enough since each round that goes on shortens the buffer; reconnect_loop of Client/Reconnect runs
-- on given fuel, of which more than the retries that are left is enough, since each round that goes
-- on counts a failure; recv_all of Handler/Handshake runs on the number of bytes and one more, enough
-- since a chunk that is not empty brings at least one.
--
-- Not modelled: the log messages of the other parts, the effects of user callbacks and of the bus's
-- subscribers (but for stop_retry in the retry loop), the timeouts of sockets, negative numbers
-- (but for the code of a message type and max_client), the interpreter's limit on the digits of a
-- number, time. Thread objects are left out but for their identifiers, so that joining one has no
-- effect. The benchmarks, the formatting of log messages and the vendored event bus, whose emit
-- hands no exception of a subscriber to its caller, are not part of the model.
pub mod Prelude
pub mod Exceptions
pub mod Internal
pub mod Logger
pub mod Network
pub mod Handler
pub mod Client
pub mod Server
pub mod SocketCore
pub mod Tests
