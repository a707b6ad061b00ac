-- ===== src/Lib.antt =====
-- tws-rust forwards TCP and UDP connections through WebSocket channels. A client (src/protocol/client.rs)
-- keeps several sessions open to a server (src/protocol/server.rs). It opens each with a handshake that names
-- a remote, under the HMAC of a shared password; the server then connects to that remote for each logical
-- connection that the client asks for, and data flows both ways, each packet with the six characters that
-- name its connection. Both sides are built on the same service (src/protocol/shared.rs), on the packets of
-- src/protocol/protocol.rs, and on the streams, writers and throttlers of src/protocol/util.rs and
-- src/protocol/udp.rs.
--
-- Which file models what:
--   Prelude    booleans, lists, the error chain's `Result` (an error carries its topmost message), and
--              integers with the wrapping subtraction of `i64`.
--   Text       what the program uses of byte strings: UTF-8 (`str::from_utf8`), `find`, `split`, `lines`,
--              decimal printing and parsing.
--   Net        std's `SocketAddr` with its printer and its parser, and `addr_to_str` and `str_to_addr`.
--   Protocol   src/protocol/protocol.rs: `Packet` and `ConnectionState` (Protocol/Packet), the authentication
--              (Auth), a builder and a parser for each kind of packet (Connect, Handshake, State, Data), and
--              `parse_packet` (Dispatch). Exchange, Packed and Trust hold the theorems on the whole dispatch.
--   Util       src/protocol/util.rs: `rand_str`, `Speedometer`, `ThrottlingHandler` with `StreamThrottler`
--              and `ThrottledStream` (Throttling), `SharedWriter` and `SharedStream` (SharedStream),
--              `AlternatingStream` (Alternating), `HeartbeatAgent` (Heartbeat).
--   Map        `HashMap<K, V>` as a list of keys and values, over a type of keys with a test for equality (`Eq`
--              of Prelude/Equality), with its laws (Laws) and the invariant that each key is there once (Distinct).
--   Udp        src/protocol/udp.rs: the send queue of a socket (Handle), a client's packets (Stream), and the
--              socket that sorts packets into streams (Datagram): its two maps are inverse to each other (Inverse)
--              in every run (Sound, Run); what it does for one peer (Peers) when it has sent and dropped the idle
--              (Idle, Prepared) and then reads (Refines), and when none is left (Empty); a new peer (Visitor), and its
--              queue (Sending).
--   Session    src/protocol/shared.rs: a TCP connection (Connection), the throttlers of its two directions
--              (ReadThrottle, WriteThrottle), the operations of a session (Service), what they do to its writer
--              (Writer) and its table of UDP connections (UdpTable), and its timers (Heartbeat).
--   Server     src/protocol/server.rs: the state and the handlers of a session (State), their dispatch and
--              what the tasks of connections do (Handlers), the runs of all of these in any order (Run), and
--              `TwsServer` with its clients' addresses (Accept) and its requests and sessions (Listen).
--   Client     src/protocol/client.rs: the same for the client (State, Handlers), the choice of a session and the
--              delay of its restart (Sessions), and `TwsClient` with all its sessions (Pool).
--   Tunnel     a client and a server together: TCP connections (Connecting), their data (Data) and flow control
--              (Pressure), a UDP client's first packet (Visitors), and UDP packets both ways (Datagrams).
--   Config     the options (Options), the command line of src/cli.yaml and src/parser.rs (Args), the two compared
--              (Agree), and the start of the program in src/main.rs (Main).
--   Tests      the model on concrete inputs.
--
-- State and operations. A struct is a record, and a method is a function from the old record to the new one.
-- What is shared through `Rc<RefCell<…>>` is one record that the operations of all its owners change: a
-- `SharedWriter`, its clones and its `SharedStream` are one `SharedState`, which counts them; the state of a
-- session is one `Core`, which the WebSocket writer's throttling handler works on too. A task of the event
-- loop is a number; what is modelled of it is which task a stream has kept and which tasks have been notified, not
-- that the loop then polls them. What the loop, the sockets and the timers do, in whatever order, is a list of
-- events. A panic is `none`, for the hook in src/main.rs makes it the end of the program.
--
-- Numbers and bounds. Instants and durations are numbers of nanoseconds, and a clock's differences stop at
-- zero. Sums, differences and powers of `u64` and `i64` wrap around where the code's could overflow, as they
-- do in a release build. Printing of numbers goes by a count of digits that suffices for the type: 20 for
-- 64 bits, 5 for a port, 3 for a byte and 4 for a hexadecimal group. Loops over queues, maps and drawn
-- numbers are recursion on the list, so nothing can run out.
--
-- What is assumed. HMAC-SHA256 and base64 are the two functions of a record `Crypto`: the round trips assume
-- of them only that a code is ASCII text of one line (`TextCodes`), and the authentication theorem nothing.
-- The theorems on the client's accept loops assume too that HMAC takes a key of every length (`AcceptsKeys`); and the
-- theorem on the restarts of its sessions, that what a session does by itself does not panic.
-- The random numbers are lists. A map's order of iteration is that of its list, which is arbitrary. What `clap`
-- has read from the command line is a record of functions, and reading a configuration file is a function that
-- gives the fields with their values, as `serde_yaml` does; the defaults and the fields that must be there are
-- those of the program.
--
-- What is not modelled: the sockets, which are events and arguments of the operations; the WebSocket library, tokio
-- and the TCP codec; the event loop's joining of a session's tasks (`run_service`, `select2`), each of which is an
-- operation; logging and the messages that are printed; the macros and traits that only pass fields on. A
-- connection that has left its table still exists until its tasks end: its data reach the session as events. On
-- the client the sessions share one UDP socket, whose handle is seen here from one session. A UDP stream that its
-- socket has dropped is kept in the socket's list of orphans, and goes on alone.
pub mod Prelude
pub mod Text
pub mod Net
pub mod Protocol
pub mod Util
pub mod Map
pub mod Udp
pub mod Session
pub mod Client
pub mod Config
pub mod Server
pub mod Tunnel
pub mod Tests
