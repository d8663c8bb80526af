-- ===== src/Lib.antt =====
-- A verification library for the remote control application: a signaling server (apps/server), a
-- desktop client (apps/desktop) and the types that they share (packages/shared). Hosts and viewers
-- connect to the server by web sockets, join a session under its rules, and exchange through it the
-- offers, answers and candidates of a peer connection.
--
-- RateLimit is `SlidingWindowRateLimiter` of apps/server/src/signaling/rateLimit.ts. RateLimit/Log is
-- the specification, a log of events that is counted; RateLimit/Refinement relates the two, and
-- RateLimit/Window bounds what `consume` admits.
-- Sessions is `SessionsService` of apps/server/src/signaling/sessions.service.ts. A map of maps is an
-- association list in order of insertion (JsMap), and `addPeer` returns its errors. Sessions/Expiry
-- has `removeExpiredPeers` and `getStats`; Sessions/Invariant, /Removal and /Touch the invariant;
-- Sessions/View and /Leaving what the operations do to the entries; Sessions/Behaviour what follows.
-- Signaling is apps/server/src/signaling/signaling.gateway.ts. Signaling/Payloads has the sanitizers,
-- over JavaScript values of unknown shape (Value); Signaling/Gateway the state, the connections and
-- the clean-ups; Signaling/Gateway/Join the handler `joinSession`, cut into one function per segment
-- between two awaits; Signaling/Gateway/Relays the other handlers; Signaling/System the step relation
-- in which any handler, or any waiting segment, may run next. Signaling/Turn is
-- apps/server/src/turn/turn.service.ts.
-- Input is apps/desktop/src/main/ipcValidation.ts, what the desktop's main process accepts of a
-- renderer, with the control messages in Input/Control. Input/Bounds and Input/Transfers say what is
-- accepted.
-- Files is apps/desktop/src/main/fileIpc.ts, the handlers of a file that arrives in chunks, and
-- Files/Names the functions of apps/desktop/src/main/fileTransfer.ts. Starts and appends are cut at the
-- calls that they await; the transfers are objects at addresses, which pending appends share with the
-- map. The specification of a transfer, read off a record of what was acknowledged, is in
-- Files/Transfers, and Files/Transfers/Runs has the interleavings.
-- Discovery is apps/desktop/src/main/discoveryClient.ts: Discovery/Scan one scan by UDP, as a machine
-- over the callbacks of its socket and timer, Discovery/Subnet the addresses that are probed, and
-- Discovery/Merging what the merged list holds.
-- Backend is apps/desktop/src/main/backendProcess.ts, the server that a host's desktop runs as a child
-- process: a machine over starts in any mode, stops and the callbacks of its processes.
-- Channel is apps/desktop/src/renderer/src/webrtc/RemoteControlClient.ts, the client that host and
-- viewer run. Channel and Channel/Encoded have the sanitizers of the messages on the data channel,
-- Channel/Patterns their regular expressions, Channel/Bounds what is accepted; Channel/Checksum the
-- checksum of a file; Channel/Lifecycle the states of a session. Channel/Transfers has the transfers
-- that arrive, as objects at addresses that the map, the queue of chunks and the timers share;
-- Channel/Transfers/Events the machine over messages and callbacks, in any order;
-- Channel/Transfers/Whole and /Watched its invariants. Channel/Sending is `sendFile`, on fuel, of
-- which one round more than the file has bytes is enough, and Channel/Delivery takes what it sends
-- to the parser and the methods of a receiver, on the schedule that its `answers` define. The chunks
-- that a receiver accepts are appended by the handlers of Files.
-- Settings is apps/server/src/settings: `SettingsService` with the check of a host's password, and
-- `SettingsController`. node:crypto, Buffer, JSON and the file are parameters; Settings/Laws says what
-- is accepted after an update.
-- Text and Value are strings as lists of UTF-16 code units, numbers as dyadic fractions, and values.
--
-- The gateway holds a registry and three limiters and calls them as the source does. What it emits,
-- and the rooms that it joins and leaves, are returned as a list of outputs. The clock is an argument
-- of every operation that reads it. Host settings, the password check and the answer of a host are
-- answers of the surroundings, which may be anything; those that were given are kept in a log, on
-- which alone the authorization of a viewer is stated.
--
-- Every definition is total by structural recursion. Besides the fuel of `sendFile`, the one count of
-- steps is that of `digits` in Discovery, five, which is enough for the ports and address parts that
-- it prints; a checksum has eight digits. Counts, times and lengths are natural numbers: a difference of times is written as a
-- sum on the other side. The limits that come from the environment are parameters.
--
-- Not modelled: the NestJS and socket.io libraries, random request ids, the texts of error messages
-- (constructors stand for them), the timeout of an approval request (its acknowledgement may be
-- `timed_out` at any time), exceptions of awaited calls (the handler then stays where it waits), the
-- rest of the desktop application and the user interface. Of the WebRTC client: the peer connection
-- and its sockets, the clipboard polling, and the bitrate, which is arithmetic on doubles. The texts of status reports are left out; timers fire at any time. What the disk does is
-- an argument of the segments of the handlers of Files.
-- Unicode normalization, lower case, node:path, `btoa`, `atob`, node:crypto and `JSON` are parameters.
pub mod Prelude
pub mod JsMap
pub mod Text
pub mod Value
pub mod RateLimit
pub mod Sessions
pub mod Signaling
pub mod Input
pub mod Files
pub mod Discovery
pub mod Backend
pub mod Channel
pub mod Settings
