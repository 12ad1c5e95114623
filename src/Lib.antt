-- ===== src/Lib.antt =====
-- An IPMI 2.0 management controller over RMCP (the Go package ipmigod): a server that answers the
-- commands of a management controller in datagrams, and a client that opens a session with it.
--
-- The parts, and the files that model them (paths from the root of the repository):
-- - Protodefs: the constants of ipmi_protodefs.go.
-- - Wire: bytes on the wire, and `ipmiChecksum` of ipmi_internal_proto.go.
-- - Lanserv: `lanserv`, the user and session tables of ipmi_internal_proto.go, with the searches in
--   them; Lanserv/Init is `ipmiLanInit` of ipmi_proto.go.
-- - Message: `msgT`, and `ipmiParseRmcpMsg` of ipmi_proto.go.
-- - Bmc: `mc` of bmc.go, the event log and the SDRs, with `addToSel`.
-- - World: the state that a handler works on, and `returnRsp`, `returnErr` and `returnRspData` of
--   ipmi_proto.go, through which every handler answers.
-- - App: the session commands of ipmi_internal_app.go. Challenge, Activate and Control are its
--   handlers, in the order in which a client uses them.
-- - Storage: the event log and SDR commands of ipmi_internal_storage.go, and `getSensorReading` of
--   ipmi_internal_sensor.go.
-- - Server: the way of a datagram through ipmi_proto.go: `ipmiHandleMsg`, `ipmiParseMsg`, `asfPing`
--   and the tables of commands. Server/Boot is the state at the start.
-- - Client: the messages and reply parsers of ipmi_client.go; Client/Handshake is
--   `ipmiEstablishSession` with its retries, over a network that is a parameter, and Client/Run puts
--   it in front of the server.
-- - Controller: `sensorAdd` and `mainSdrAdd` of bmc.go; Controller/Init is `bmcInit`, Controller/Poll
--   is `pollSensors` of ipmi_internal_sensor.go, and Controller/Daemon is the way of `Ipmigod` to the
--   MM card. Controller/Reading follows a sensor's reading from a line card to the MM card.
-- - Controller/Ticker: the two goroutines that use the controller, the loop that receives datagrams
--   and the ticker, as an interleaving of turns. A turn is a whole datagram or one body of the
--   innermost loop of `pollSensors`, and the ticker's loop counters are its state. `daemon_turns` is
--   `Ipmigod` on a sequence of turns.
-- - Server/Replies: the datagrams that the handlers send. Server/Faults: the datagrams on which the
--   server panics, as a test that can be run (`datagram_faults`). Server/Authorized: what a datagram
--   may do to the sessions, as a step relation (App/Step), and what holds of them on every run.
--   Server/Entries is the induction over the tables of commands that these share.
-- - Server/Unread: the commands of ipmi_internal_bridge.go and ipmi_internal_transport.go with their
--   tables, which no code reads.
-- - Base: shared names, lists over native numbers, bit operations, and `Outcome`, what a Go function
--   does: it returns, or it panics. Examples holds concrete servers and messages.
--
-- A handler is a function of what it takes from outside (`Env`: the time and the random number), the
-- message and the `World`, to an `Outcome World`. A datagram that is sent is put in front of `sent`.
-- An index out of range, a nil pointer that is read and a nil function that is called are `panic`,
-- which ends the program. Machine integers wrap as written (`% 2 ^ w`). A pointer to a session is nil,
-- a local variable or a slot of the table (`SessionRef`); a pointer to an SDR is an index into the
-- nodes in order of allocation, and the linked list is kept as a linked list. Storage/Sdr/Chain says
-- which nodes a walk from the head visits, and Storage/Sdr/Contents which sequence of records the
-- list stands for; the specifications of the commands are functions of this sequence.
--
-- Fuel: the search for an id in `addToSel` has 2 ^ 16 + 1 steps, one more than there are ids; a walk
-- through the SDRs has as many steps as there are nodes, since each link leads to a later node. Where
-- fuel runs out the outcome is `stuck`, a third one beside a result and a panic.
--
-- The loops of `pollSensors` are bounded by their own counters, and the tries of the client by
-- MAX_RETRIES.
--
-- Parameters: the network between the cards, as exchanges that end (a function of the state of the far
-- end and the request, to a reply or to an error of the write or the read), the clock, the random
-- numbers, and whether a socket could be opened.
--
-- Not modelled: the sockets and the goroutine that reads from them, the kill signal, the printing,
-- the waits of the client between two tries, and an exchange that never ends: the client's read has
-- no deadline, so that a lost datagram leaves it waiting for ever, and no network of the model stands
-- for that. What a data race does within a turn is left out too: the ticker runs in a goroutine of its
-- own without a lock, and the model lets it in between two datagrams, but not into the handling of
-- one. Readings that are not simulated have no code in the source. Fields that no code reads are left
-- out of the records.
pub mod Base
pub mod Protodefs
pub mod Wire
pub mod Lanserv
pub mod Message
pub mod Bmc
pub mod World
pub mod App
pub mod Storage
pub mod Client
pub mod Controller
pub mod Server
pub mod Examples
