-- ===== src/Lib.antt =====
-- plugo: host and plugin processes that talk over one byte stream, with a handshake that picks a
-- codec, plain messages, and multiplexed streams with routes.
--
-- The program is a Go package at the root of the repository. This library models all of it that does
-- not merely call the system, file by file:
--   * Io: what a Go call returns, its errors, and the `io.ReadWriteCloser` below a connection with
--     `io.ReadFull`, `Write`, `Close` and `SetDeadline`. An end of the link is the bytes that will
--     arrive, how they end, and the bytes written. A read of more bytes than those finds the link
--     ended; System/Rest looks also at a link that stays open, where such a read waits.
--   * Context: the two `withContext` helpers (conn.go, negotiate.go). A context says when it is done:
--     not at all, during the call, between its return and the test of `ctx.Err()`, or behind that test.
--   * Wire: the frame of stream.go and its encoding in conn.go's `WriteData` and `writeStreamFrame`.
--   * Chan: Go's buffered channels. Talk: the code of handlers, as functions from the results of their
--     calls on a stream to the next call, so that a handler may go on for ever.
--   * Codec: codec.go. Conn: the state of conn.go's `MessageConn` and its writes, and conn_routing.go's
--     registration and `startStream`. Reader: conn.go's `ReadData`, `ReadMessage`, `AcceptStream` and
--     the read loop. Stream: stream.go's `Send`, `Recv`, `CloseWrite` and `Close`.
--   * Routing: the clients' calls of conn_routing.go and the goroutines that they leave. Tasks: the
--     goroutines that the read loop starts for routed streams, call by call. Generic: generic.go, the
--     typed layer.
--   * Negotiate: negotiate.go, both sides of the handshake. Pipe: the pair of pipe ends of client.go and
--     plugin_windows.go. Attach: client.go. Plugin: plugin.go, with plugin_unix.go in Plugin/Unix and
--     plugin_windows.go in Plugin/Windows.
--   * System: one connection in all its histories, the acts of its goroutines in any order.
--   * Shared: the messages of examples/shared, message_gen.go's five functions on each of the seven, and
--     in Shared/MsgpackCodec the codec. IpcClient: `ipcClient` of examples/host_go/main.go. Runner:
--     examples/plugin_go/runner.go, and in Runner/Plugins its three mains.
--   * HostMain: what the main of examples/host_go/main.go looks for, launches and calls.
--   * Together: that client and that plugin at the two ends of one link, in all their histories.
--   * Tests: the theorems on concrete inputs.
--
-- How they interact. A launch makes a link, and the handshake on it makes a connection on each side,
-- with the codec agreed on. From then on a read loop takes frames off the link: those of stream 0 go to
-- `ReadData`, the others to their streams, and a start frame makes a stream, which goes to a handler's
-- goroutine or to `AcceptStream`. All callers write frames to the link.
--
-- On top of it stand the two programs of examples/. The host's client sends requests with an id from any
-- goroutine, and its read loop hands each response to the call that waits for its id; the plugin reads
-- requests and writes for each a response with its id. The library github.com/tinylib/msgp, which the
-- generated code calls, is a record of functions (Shared/Msgp), with laws for what is relied on: what was
-- appended reads back, a writer writes what is appended, the size constants are bounds.
--
-- How state is modelled. A `*Stream` is an index into the connection's table of stream objects, since
-- the map of streams, the caller and the read loop share it. What a goroutine does between two
-- blocking points is one function on the connection; a select takes the case that a `Pick` names, and
-- `waits` or `parked` is a call that blocks. The read loop's place is a field: at the head of a round,
-- in one of its selects, or gone. The maps are association lists. A `uint32` is a number whose
-- arithmetic wraps as written.
--
-- On the link of Together the bytes that one side has written arrive at the other in pieces of any
-- size, at any time or never; no streams are opened there. A side that reads before a whole frame
-- has arrived finds the link broken there.
--
-- Bounds. No function runs on fuel; a loop is followed round by round. The read loop is followed act by
-- act: a payload takes it two acts, one to read the frame and one to hand it over, and System/Rest bounds
-- its acts by the bytes to come. Queues hold 100, as in the source.
--
-- Taken as one act: `Close` of a stream, whose steps also stand alone; the end of the read loop with its
-- deferred calls; and the goroutine that feeds a MultiSingle handler, which is run on demand.
--
-- Not modelled: what a call leaves on the link when it is interrupted half way, which depends on the
-- kernel; JSON, gob and msgp, which are parameters; the getters; log lines, sleeps and wait
-- groups of the examples; and the Zig plugin.
pub mod Prelude
pub mod Io
pub mod Context
pub mod Wire
pub mod Chan
pub mod Talk
pub mod Codec
pub mod Conn
pub mod Reader
pub mod Stream
pub mod System
pub mod Negotiate
pub mod Pipe
pub mod Attach
pub mod Plugin
pub mod Routing
pub mod Tasks
pub mod Generic
pub mod Shared
pub mod IpcClient
pub mod Runner
pub mod Together
pub mod HostMain
pub mod Tests
