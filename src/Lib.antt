-- ===== src/Lib.antt =====
-- Verification of amgi_proxy, a proxy server that speaks SOCKS5 or the HTTP proxy protocol, plain or over TLS, and of
-- amgi_tunnel, which forwards each connection that it accepts over TLS to one target.
--
-- An acceptor (amgi_proxy/transport/server.cpp, transport/tls/tls_server.cpp) hands each accepted connection, a
-- server stream, to a stream manager. The manager makes a client stream for the remote host and keeps the two
-- with a session in a table under the stream's identifier. A stream reports what asio completes to its manager,
-- which passes it to the session, which passes it to the handler of its protocol state; the handler calls back
-- through the session and the manager to start reads, writes and connects on the two streams.
--
-- A session of the tunnel (amgi_tunnel/session.hpp) has both sockets itself. Its server (server.hpp) makes one session
-- for the next connection at a time, and a session that started is in the manager (manager.hpp) until it leaves.
--
-- Files, and the code they model:
--   Base        lists, tables, Boolean tests, the outcomes of a computation, and a Pipe, one direction of a
--               relay. A Fault is what C++ leaves undefined (a read or write past the end, a use of an erased
--               session) or a thrown exception.
--   Decimal     std::to_string and std::from_chars of a port.
--   Transport   the two kinds of streams: amgi_proxy/transport/tcp_server_stream.cpp and
--               tls/tls_server_stream.cpp (ServerStream), tcp_client_stream.cpp (ClientStream), with counts
--               of the asynchronous operations that are started and have not completed, and the write buffers.
--               Endpoint prints the ends of a connection, for the tunnel too.
--   Proxy       what the two protocols share word for word, generic in the protocol state:
--               http_session.cpp and socks5_session.cpp (Session), http_stream_manager.cpp and
--               socks5_stream_manager.cpp (StreamManager, with the data in Store). Network has the completion
--               handlers of the streams and the histories of a session: any order of completions of operations
--               that were started. Local computes what a method does to the entry of its session.
--               Acceptor is the accept loop (amgi_proxy/transport/server.cpp, tls/tls_server.cpp). Protocol is the
--               interface between the manager and a protocol: the callbacks, an automaton of one session, and what
--               they promise. Deliver has the completion handlers of all streams of a manager, over any protocol,
--               and the histories of a server, which accepts connections and has operations complete; Histories,
--               Isolation, Service and Awaits are about them. Carry has the bytes on the two connections of a session,
--               Traffic those of one session of a server, among the others; Follows and Counts are about them. Run
--               gives a session a sequence of completions, and Interleaving is about such a session in a server.
--               Setup has the calls that the constructors of the two servers make before the first accept, with
--               the try block of main.cpp, and Startup is about them.
--   Socks5      amgi_proxy/socks5: Packet (socks5.cpp, socks5.h), State (socks5_state.cpp), Callbacks
--               (socks5_stream_manager.cpp). Protocol fills the interface.
--   Http        amgi_proxy/http: Text and Request (http.cpp, http.h), State (http_state.cpp), Callbacks
--               (http_stream_manager.cpp). Protocol fills the interface.
--   In both, Automaton is an abstract description of one session, a function of its own pair of streams and state,
--   and Refinement relates the handlers and the manager to it. The statements on the histories of one session
--   are on the automaton.
--   Logger      amgi_proxy/logger, and parse_log_level of amgi_proxy/main.cpp.
--   Main        amgi_proxy/main.cpp: from the options, as stored, to the logger, the manager and the acceptor.
--   Tunnel      amgi_tunnel: Session and Events (session.hpp), Manager (manager.hpp), Server (server.hpp, with the
--               counter and the destructor of session.hpp). Relay has the histories of one session with the bytes on
--               its two connections, Histories those of the server. Relaying, Reads, Writes, Step and Order are about
--               the order of the operations of a session, Busy, Sound, Alive and Answering about what the server keeps,
--               Ending, Ended, Apart and Leaving about a session that has left the manager. Main is main.cpp, and Setup
--               and Startup are the calls before the first accept. Text has two of the lines that a session prints, of
--               its start and of its end.
--   Tests       the statements at concrete inputs.
--
-- A handler runs in explicit state: the manager, whose table is a function from identifiers, and a possible fault.
-- A method of a session whose entry was erased faults as a use after free. Counters of type size_t wrap
-- at 2^64 and ports at 2^16. A session of the tunnel is destroyed when it is not in the manager and none of its
-- operations, each of which points to it, is under way. All recursion is structural but for
-- std::to_string, which runs on the number plus one as fuel; a number has no more digits than that. A StringView keeps the rest of
-- the line that it was cut from with its size, so that a size beyond the line is seen. The identifiers of the streams, which are
-- of type int, are natural numbers: what is said of a running server holds as long as its accept loop has counted no further
-- than 2^31 - 1.
--
-- Parameters: inet_ntop of asio, the numbers of its error codes, the time stamps of records, and which calls of the
-- constructors, and whether the event loop, throw an exception, and with what text.
-- asio is assumed to complete only started operations, each once, and writes to one stream in their order. A write that fails, or
-- that is under way when its session ends, may have sent any beginning of its bytes.
--
-- Not modelled: most calls of the logger, the parsing of the command lines (boost::program_options and cli_tools), what the
-- calls of the set-up of the sockets and of TLS do, the handlers of the TLS shutdown of the proxy (their reports find no session any
-- more), reads of uninitialised counters (the members after the identifier are value-initialised), and what a session of the
-- tunnel prints of an error. `close_ssl` of the tunnel is never called.
pub mod Base
pub mod Transport
pub mod Decimal
pub mod Proxy
pub mod Socks5
pub mod Http
pub mod Logger
pub mod Tunnel
pub mod Main
mod Tests
