-- ===== src/Lib.antt =====
-- Memberlist: cluster membership and failure detection by gossip, after SWIM with Lifeguard.
--
-- The program keeps a table of the nodes of a cluster. Messages about nodes (alive, suspect, dead),
-- state exchanges and expired suspicion timers change it (state.go), calls of the application join,
-- announce, leave and stop (memberlist.go). Each change may queue a broadcast (broadcast.go, queue.go),
-- queue an event for the application (events.go), start, hasten or clear a suspicion timer
-- (suspicion.go), and move the local health score (awareness.go). Messages are MessagePack maps
-- (internal/msgpack, internal/wire). Packets carry labels (label.go), compound messages (util.go) and
-- encrypted payloads (security.go) under a keyring (keyring.go); a listener takes them in and queues
-- their messages, and a packet handler gives these to the state machine (net.go).
--
-- Awareness.antt: awareness.go; the score and `ApplyDelta`, `ScaleTimeout` as `apply_delta`,
-- `scale_timeout`. Integers are Go's `int`, wrapped by `to_int64`.
-- Suspicion.antt: suspicion.go; `Confirm` is `confirm`, which returns what it does to the timer.
-- Member: state.go, memberlist.go, broadcast.go, events.go and config.go. The record `Memberlist` is
-- the state: the node map and the suspicion timers are association lists, `nodes` is the probe list by
-- name, `events` and `broadcasts` are what has been queued. One function per handler: `aliveNodeLocked`
-- is `alive_node_locked`, and so on. A pointer to a node state is its name: the state is read from the
-- map, and written back to it. A handler runs under the node lock, so it is one step. `Env` is what one
-- handler reads of the world: the clock, the random offset, and whether a timer could be stopped.
-- `Config` holds what the handlers read of the configuration; its functions are the application's
-- alive delegate, the allowed networks, and the floating point formulas of the timeouts.
-- Member/Run.antt: `Step` is one critical section, of a handler, a timer or a call, at any time, so
-- `Reach` contains every interleaving of these. An entry of a state exchange is a step of its own, and
-- `setAlive` is two: it takes its incarnation before it holds the lock. A timer that was cleared may
-- still fire. A time is a number of nanoseconds since the zero time, and `since` is `time.Since`, which
-- cuts off at the ends of a duration.
-- Member/Protocol.antt: `verifyProtocol`, which compares the versions of both sides of an exchange.
-- Member/Invariant: the invariant `Inv` of the tables, handler by handler.
-- Member/Effects: how handlers move the states of nodes. Member/Safety: whole runs.
-- Queue: queue.go. Treap.antt has the treap as a tree without pointers; two entries are one where
-- their ids agree. Limited.antt has `TransmitLimitedQueue`; `BroadcastOps` is the interface `Broadcast`
-- with its two refinements.
-- Util: `shuffleNodes` and `moveDeadNodes` of util.go, over any type of node.
-- Wire: label.go, and the compound messages of util.go.
-- Security: keyring.go and security.go. AES-GCM is the parameter `Aead`, and what a theorem needs of it
-- is a hypothesis.
-- Msgpack: internal/msgpack/msgpack.go. A `Reader` is a decoder: it takes the input that is left and
-- returns a value with the rest, or an error. `stream` tells the mode: in slice mode the decoder
-- compares counts with what is left.
-- Messages: internal/wire/wire.go. `append_ping` is `AppendMsgpack` of `Ping`, and so on;
-- `WireMessage` is the interface `Message`; a byte slice that may be nil is an option.
-- Packet: net.go, and the ack handlers of state.go. Receive.antt is the listener, `ingestPacket` to
-- the queues and the answers; Handle.antt is the packet handler; Acks.antt has the handlers of acks and
-- nacks; Send.antt is `rawSendMsgPacket`, and Piggyback.antt `sendMsg` with `getBroadcasts`. The record
-- `PacketState` holds the memberlist of Member, the two queues, which list their messages from the
-- back, and what has been sent. Run.antt puts the listener, the handler, the timers and all steps of
-- Member side by side, so `PacketReach` contains every interleaving of these; the calls of `sendMsg`,
-- of the delegate and on channels are recorded. Draining.antt says what the handler's loop is for, as
-- `handle_in_turn`. LZW, CRC-32 and the parsing of host and port are parameters.
--
-- Bounds: incarnations are uint32 and are reduced modulo 2 ^ 32 where the code adds to them. Loops on
-- fuel: the walk of a treap by its stack (the size of the treap), the rounds of `GetBroadcasts` (one for
-- each entry and each tier), `Prune` (the number of entries), `moveDeadNodes` and
-- `makeCompoundMessages` (the length of the list), the envelopes of a packet (three: a compound and a
-- compressed one, and the message), and the loop of the packet handler (a round for each message and
-- one more). `Skip` counts the levels that are left down from 33, as the source counts up to 32.
--
-- Not modelled: sockets and transports (net_transport.go, transport.go), the streams of push/pull and
-- user messages (net.go), probing and the schedule of gossip (state.go) but for what they do to the
-- health score, retries (internal/retry), metrics, logging, and waiting on contexts and channels. They
-- move bytes and time; what they deliver reaches the model as the arguments of its steps. Compressed
-- and streamed bytes are whole lists, so chunked reading is left out.
pub mod Prelude
pub mod Awareness
pub mod Suspicion
pub mod Util
pub mod Member
pub mod Queue
pub mod Wire
pub mod Security
pub mod Msgpack
pub mod Messages
pub mod Packet
mod Tests
