-- ===== src/Lib.antt =====
-- clippy synchronises the clipboards of the machines of a local network. A machine watches its
-- clipboard (internal/osclip), cuts what was copied into chunks (internal/clipwire), sends them to
-- every connected peer (internal/netmesh), and joins and applies what peers send; internal/app
-- ties these together and cmd/clippy is the command line.
--
-- Files, and the code they model:
--   Base: the library names, and what the program uses of Go's standard library. Base/Int has
--     64-bit integers with wrap-around, Base/Map association lists for Go's maps, Base/Bytes byte
--     strings and their order, Base/Text `strings.TrimSpace`, `Cut`, `HasPrefix`, `TrimSuffix`,
--     Base/Number the texts of integers as package strconv writes and reads them.
--   Clipwire/Types, Clipwire/Payload, Clipwire/Utf8: payload.go and hash.go. The digest and the
--     protobuf codec are the parameter `Wire`.
--   Clipwire/Chunking: chunking.go. `chunk_payload` is `ChunkPayload`, `add` is `Reassembler.Add`.
--     Its children hold the proofs: what a split payload is, the invariant of a reassembler, the
--     isolation of transfers, and delivery.
--   Osclip/Pending: pending.go. Osclip/Manager: manager.go, with the decoder of images and the
--     parser of URLs as the parameter `Media`, and whether the clipboard takes a write as an
--     argument. Osclip/Watching: `NewManager`, `Start` and the goroutines of manager.go, two
--     `watchLoop` and a `processObserved`, as a step relation over the channels `observed` and
--     `events`, which calls the definitions of Osclip/Manager.
--   Netmesh/PeerState and Netmesh/Backoff: `peerState` of connection.go and the methods of
--     manager.go and discovery.go that run under its mutex. Netmesh/DialLoop: the dial loop of a
--     peer beside everything else that touches the peer, as a step relation.
--   Netmesh/Discovery: TXT records and entries of discovery.go. Netmesh/Options: `withDefaults`.
--   Netmesh/Delivery: `enqueue` of connection.go and `Send` of manager.go. Netmesh/Broadcast: its
--     `Broadcast`. Netmesh/Pumps: the pumps of one connection and its `close`, as a step relation
--     beside the callers of `enqueue`. Netmesh/Manager: the operations of manager.go and
--     discovery.go on the table of peers, one after another: `Start`, `handleServiceEntry`,
--     `handleWebSocket`, `dialPeer`, the end of a connection, `pruneStalePeers`, the end of the
--     context and `shutdown`. A connection is told by a number that counts up. Netmesh/Peers: `Peers`.
--   App/Runtime: runtime.go, `handleFrame`, `broadcastPayload` and `runClipboardLoop`, which compose
--     the above. The codec of a chunk and the mesh's `Broadcast` are arguments. App/Lifetime: its
--     `New`, and `Start` and `Wait` as a step relation. App/Status: its `Status`.
--     App/PeerLog: its `logPeerChanges`, with the lines of the log as values.
--   App/Config: config.go. App/Control: control.go, `handleConn` and `RequestControl`, with the
--     codec of package encoding/json as the parameter `ControlCodec`.
--   Cmd/Flags: the flags and environment variables of cmd/clippy/main.go, with package flag
--     written out as far as the program uses it, and `daemonArgs`. Cmd/Commands: the commands,
--     with what they ask of the operating system, of app.SpawnDetached and of `serveDaemon` as the
--     parameter `Machine`; the loop of `waitForDaemon` recurses on a number of rounds.
--   Cmd/Serve: `serveDaemon` beside the goroutine of `Serve` and whatever cancels the context, as a
--     step relation.
--
-- A mutex makes each critical section one step, so a component's state is a value and a method
-- returns the next one; a nil pointer is `none`; an error is a value. Where a loop of the code
-- counts, the model recurses on the rounds that are left, so nothing runs out of fuel. Only
-- `waitForDaemon` loops until a time: every round but the last pauses for 200 milliseconds, so that
-- two rounds more than pauses fit into the timeout are enough. A request to a daemon is taken to
-- return; the code sets no deadline for the answer.
--
-- Bounds: a `uint32` and a `uint64` wrap where the code converts or adds; a Go `int` is 64 bits
-- wide. A clock reading is a natural number of nanoseconds.
--
-- The step relations let a `select` take any of its ready cases and let goroutines take turns in
-- any way: one step is one channel operation, one critical section or one call out of the
-- program. A channel is a list with its size; a call on a socket may fail at any time.
-- A Go map is a list of its entries. Where the code ranges over a map, the model takes the entries
-- in the order in which they were made, which the operations before may have made in any order.
--
-- Not modelled: the network and clipboard libraries and HTTP; `advertiseLoop`, `browseLoop` and the
-- tickers of `pruneLoop` and `runPeerLogLoop`, which repeat modelled operations at times that those
-- libraries and the clock choose; the dial loop's exit at shutdown; what `shutdown` does to the
-- advertiser and the servers; sockets, their deadlines and processes; the generated protobuf code;
-- and Go's tests.
pub mod Base
pub mod Clipwire
pub mod Osclip
pub mod Netmesh
pub mod App
pub mod Cmd
