-- ===== src/Lib.antt =====
-- fungi-transport: a message channel between two peers, over byte streams that reach a tor onion
-- service. This library models the parts of the program that decide what a peer receives, which bytes
-- go out, and when a connection counts as made.
--
-- Parts, and the files that model them:
--
-- Errors, Addr            crates/fungi-transport/src/error.rs and addr.rs: the error enums, the onion
--                         address and its text form (`show_addr`, `parse_addr`).
-- Framed and below        crates/fungi-transport/src/framed.rs: messages over a byte stream.
--                         `send` is `send_inner` and its helpers are its awaits in turn. `recv_inner` is
--                         a future that is polled: `start` is its first poll, `resume` a later one, at
--                         the read where it waits (`Point`); `header_loop` and `payload_loop` are its two
--                         loops. Dropping a `recv` keeps the channel and forgets the point.
--                         Prefix, Send, Invariant, Decode, Cancel, Lasts with Live, and Pipe are about
--                         the wire format, sending, the state, one poll, cancellation, progress and
--                         both ends.
-- Socks5 and below        crates/fungi-transport-socks5h/src/socks5.rs: `connect`, in the steps
--                         `negotiate`, `ask`, `check_code` and `skip_bound`. Bound, Reply and Connect say what
--                         a result rests on, Classify is about `Unreachable`, Complete about streams that
--                         work, Request about the bytes that the proxy reads.
-- Control and below       crates/fungi-transport-socks5h/src/control.rs: `create_onion`, with `publish`
--                         from its first write on, `expect_ok`, and `reply_loop` over the reply.
--                         Rounds and Published are about a service that is returned, Steady and
--                         Granted about a connection that works, Complete about the end of the loop.
-- Tor and below           crates/fungi-transport-socks5h/src/lib.rs: `tor_connect`, `bind` and `tor_accept` put
--                         Socks5, Control, Framed and Addr together.
-- Capnp and below         crates/fungi-transport-capnp/src/lib.rs: the client actor. `handle` is one round
--                         of its loop, `finish` what a spawned task does with the outcome of its remote
--                         call, and a `System` adds what was pulled from the remote side. Errors is the
--                         error mapping; Delivery is about receiving, Ids about the registry. Client
--                         holds the handles (`channel_send`, `connector_connect`, ...), which reach the
--                         actor over a parameter. Server and Plugin are the servers that wrap a backend,
--                         Requests, Channels, Configure and Session the actor whose remote calls they
--                         serve.
-- Mem and below           crates/fungi-transport/src/mem.rs: `send` makes a `Sending`, which `poll` advances,
--                         and the queues of all channels stand in a store. World and Fifo are about the
--                         two ends of one pipe, Bounds about its capacity, Network, Site and Paired about
--                         connectors and listeners.
-- Arti and below          crates/fungi-transport-arti/src: `connect`, `publish`, `listen` and the loop of
--                         `accept`; PrivateNet is private_net.rs, from `parse` to `build_config`, with
--                         Print and Sound about descriptors; Lazy is lazy.rs, Boot and Descriptor are
--                         about its life under calls in any order.
-- Channel, Harness        crates/fungi-transport/src/channel.rs and harness.rs: the interface of a channel,
--                         `into_stream`, and the drivers `echo_one_peer` and `dial_sequence` over any
--                         channel.
-- Cli and below           crates/fungi-transport-capnp/src/bin/harness/run.rs: `parse_args`, and `run` with
--                         `run_listen` and `run_dial` in Cli.Run.
-- Plugins and below       the main programs of the plugins, crates/fungi-transport-arti/src/bin and
--                         crates/fungi-transport-socks5h/src/bin: their environment, and the fixtures
--                         that put Arti behind the servers of Capnp.
-- Mpsc                    tokio's bounded queues, as a record of operations and of their laws, with an
--                         instance.
-- Io, Io.Socket, Io.Lines the streams of tokio, as records of operations and of the laws that its
--                         documentation states. Io.Script is an instance that plays a script.
-- Action                  async code that runs to its end on one state, with `?`.
-- Text and below          the operations of the standard library on strings that the code calls.
-- Prelude and below       shared names, tests on numbers, lists and results.
--
-- The byte stream under Framed is polled (a read delivers, waits, or fails; it may deliver any number of
-- bytes up to what was asked). The streams under Socks5 and Control are awaited to the end of each call,
-- since no caller of those two resumes them. Bytes and ports are native numbers; the theorems that need
-- their range say so, and the code's casts (`as u8`, `as u32`, `to_be_bytes`) are written out.
--
-- Bounds and rounds: a header takes at most four reads and a payload at most one for each byte, so the
-- loops of Framed have 5 rounds and one more than the length, and never run out of them. The loop of
-- Control has as many rounds as its caller gives; a round for each line that the daemon sends is enough.
-- The echo loop of Harness needs a round for each message that is left to receive, and one more.
--
-- The actor of Capnp runs on one thread: its commands and the ends of its tasks are steps, in any order,
-- and each step says which callers have dropped their futures when it sends a reply. What becomes of a
-- reply whose caller drops its future after that is not modelled.
--
-- An end of a pipe of Mem has one send under way, as `send` and `recv` borrow it. A send that waits for
-- room is polled again, and each poll is told what tokio's timers say; in what order tokio wakes several
-- connects that wait for room is left open. The calls of arti act on a world, and the requests that reach
-- a listener are the list that its stream yields; the loop of `accept` is a recursion on it, so it ends.
--
-- Not modelled: the drop of an end of a pipe in Mem, by which tokio closes its queues; capnp-rpc, its
-- runtimes and the entry points that start them; the conformance tests; and what the main functions of
-- the binaries do besides reading their environment: they start a runtime and serve a backend over stdio.
pub mod Prelude
pub mod Text
pub mod Errors
pub mod Addr
pub mod Io
pub mod Mpsc
pub mod Mem
pub mod Action
pub mod Framed
pub mod Socks5
pub mod Control
pub mod Capnp
pub mod Tor
pub mod Channel
pub mod Harness
pub mod Cli
pub mod Arti
pub mod Plugins
