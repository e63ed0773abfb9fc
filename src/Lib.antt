-- ===== src/Lib.antt =====
-- pktauth: authentication of QUIC packets by a keyed tag in the connection ID.
--
-- Every connection ID that an end hands out is a token of 20 bytes, and arriving datagrams are
-- checked against it at the socket, before Quinn parses them.
--
-- Base        lists, chunks, Boolean tests, bytes, bit operations, Rust's panics (`Run`) and
--             `Result`. Actions: programs by what they do, with `?` and panics.
-- Net         the addresses of std::net.
-- Auth        src/auth.rs. Direction: lengths, keys, selectors, errors. Cipher: AES-128 as a
--             parameter. Tag: `tag`, `assemble`, `mint`, `mint_between`. Verify: `verify` and
--             `constant_time_eq`. Cid: `destination_cid`. Authenticator: `check`. Generator:
--             `AuthCidGenerator` and `initial_dst_cid_provider`. StandIn and Tests: runs.
-- Socket      src/socket.rs. Counters: the shared state of a socket. Recv: `poll_recv`. Send:
--             `send_datagram`, `try_send` and `poll_send`; its Parts are the segments of a transmit,
--             its Attempts what `poll_send` makes of them.
-- Ping        src/lib.rs. Payload: `ping_payload`. Streams: `echo_stream`, `serve_connection` and
--             `ping`. Server: `run_echo_server` with the tasks that it spawns, interleaved.
-- Programs    Setup: the endpoints of src/lib.rs as `main` of src/bin/server.rs and of
--             src/bin/client.rs builds them. Pinging: the client's loop of pings. Summary: what the
--             client prints after it. Flood: a sender thread's probes at a receiving end.
--             ServerMain and ClientMain: `main` of each, by what it does; their Phases are what may
--             be done when. Admission and Exchange: the two programs against each other, at the
--             authenticator and over the wire; Lossless: the client with a server that echoes.
-- Tls         src/lib.rs: the configurations of both ends, over rcgen, rustls and Quinn. Documented:
--             what is relied on of these.
-- Blaster     src/bin/blaster.rs. Rng: `SplitMix64`. Template: `InitialTemplate`. Rates: the
--             threads and rates that `main` chooses. Blast: `blast`, one sender thread. Workers: the
--             sender threads interleaved. Startup: what `main` starts. Report: `report`.
--             Main: `main`, by what it does. Pace: the sleep between the batches of `blast`.
--
-- How the parts interact: the Generator mints tokens by Tag; Authenticator finds a token by Cid and
-- checks it by Verify; Socket.Recv asks Authenticator about each datagram it reads, and Recv.Calls
-- puts the calls of an endpoint in a row; Programs gives each end its Generator and Authenticator;
-- Blaster writes datagrams in which Cid finds a connection ID, and its threads and `report` share
-- the statistics.
--
-- Conventions. A byte array is a list of numbers, below 256 where a hypothesis says `AreBytes`. A
-- function that can panic returns `Run`. AES is the record `Aes128`: one block encryption with the
-- sizes that its Rust type states; nothing is assumed of its strength, so where two paths are told
-- apart the theorems speak of equal or different tags. Random bytes are an argument, and so is the
-- order of a word's bytes in memory. The counters are 64 bits wide and wrap.
--
-- The receive path takes the operating system's answers as two lists: what `try_recv_from` answers,
-- with `WouldBlock` at its end, and what `poll_recv_ready` answers, with `Pending` at its end. Both
-- loops are recursions on these lists, so no fuel is needed; a call without buffers, which the code
-- never answers while the socket is readable, is not modelled by this. A datagram longer than its buffer is
-- cut to it, as a UDP receive does. The send path does the same with `try_send_to` and the writable
-- future. Wakers are left out. Only the client's loop of pings, which has no end when its count is
-- zero, runs on fuel; with a count, one round more than the count is enough.
--
-- The sender threads are a step relation: a step is one access to what they share, so any order of
-- the accesses is a run. Third-party configuration is the record `Tls.Library`, whose documented
-- behaviour is the record `Tls.Documented.Documented`.
--
-- The three `main` functions end in the list of what they did and in a value, an error or a panic;
-- what is answered to them from outside is a record of functions.
--
-- Not modelled: what the operating system, the file system and Quinn do inside their calls, the
-- handshake among them; time elsewhere than in Pace, and the text of printed lines; tests and
-- scripts.
pub mod Base
pub mod Net
pub mod Auth
pub mod Socket
pub mod Tls
pub mod Ping
pub mod Blaster
pub mod Programs
