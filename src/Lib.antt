-- ===== src/Lib.antt =====
-- frclib-nettables, a server and a client for the NetworkTables protocol, version 4.
--
-- The program. A server (src/server/inner.rs) keeps topics, their latest values, the clients that
-- are connected and their subscriptions, in maps behind mutexes. One task parses the frames of the
-- clients and calls the server for each message and each value, another sends the values that wait
-- for each subscription to its client (both in src/server/runner.rs). Every topic has two
-- metatopics, whose names contain a "$". A connection (the same file) passes frames on between the
-- socket of a client and those tasks, and answers the requests for the time itself. The program on
-- the server's side uses a handle (src/server/handles.rs). A client (src/client/inner.rs) keeps what
-- it published and subscribed to, opens a connection with it, opens another one when that breaks,
-- and takes in values and the server's time; its user has a handle too (src/client/async_handle.rs).
-- The messages, the metatopics' values, the topics and the subscriptions are in src/spec, and
-- src/bimap.rs keeps the ids of a client both ways.
--
-- The files.
--   Base: shared names, texts as lists of codes, maps as association lists, the casts of `i32`, and
--     splitting and reading of texts.
--   BiMap: src/bimap.rs, one definition for each method; `insert` is spelled `insert_pair`.
--   Spec: src/spec, a module for each file. Spec/Encode has the three `as_bytes`, Spec/Error has
--     src/error.rs and src/server/error.rs, and Spec/Wire the encoders of other crates.
--   Server/Util: src/server/util.rs, with `from_display` in Server/Util/Display.
--   Server/Connected, State, Topics, Announce, Values, Clients, Publish, Subscribe, Wording:
--     src/server/inner.rs. `State.InnerServer` is the struct, field by field; an operation is a
--     function from a state to an outcome and a state, under the name of the method. Wording has
--     the texts of the errors.
--   Server/Runner: `parse_in` and `send_out` of src/server/runner.rs, one round of each loop.
--   Server/Connection: `handle_connection` of src/server/runner.rs, and Server/Request: `request`
--     there, with `setup_socket`'s request from src/client/inner.rs in Server/Request/Client.
--   Server/Locks: the mutexes of src/server/inner.rs and the order in which operations take them.
--   Server/Handles: src/server/handles.rs, and `generate_uid` of src/lib.rs.
--   Client/State, Clock, Sending, Receive, Values: src/client/inner.rs: the clock and the counters,
--     what is sent, on a new connection too, and what the messages and the values of the server
--     change. Sending has src/client/util.rs as well.
--   Client/Reconnect: `handle_disconnect` there, with src/client/config.rs's default.
--   Client/Task: `handle_message` there, and the task that `setup_socket` starts, turn by turn, with
--     the channel that it empties.
--   Client/Handle: src/client/async_handle.rs, with `as_unsubscribe` and `next` of
--     src/spec/subscription.rs; the handle's `unsubscribe` is spelled `unsubscribe_stream`.
--   Server/State/Holds: rules for what an operation leaves behind, however it ends.
--   Server/Invariant: the invariant of the maps, and how single writes keep it.
--   Server/Reachable: the runs of a server, its operations in any order.
--   Modules named Wf show that the invariant is kept and that nothing panics, and the others
--     beside them what an operation does. Tests has the theorems at concrete inputs.
--
-- The model. An outcome is a value, an error or a panic. An error keeps what was written before it,
-- as the source does. Numbers are natural; the counters wrap at 2 ^ 32 and the counts of publishers
-- at 2 ^ 16, as in a release build. A period, in the source an `f64` of seconds, is a whole number
-- of microseconds. The order of a map's entries stands for the order of iteration, which the source
-- leaves open. A channel to a client is the list of the frames sent and whether its receiver is
-- gone. Its capacity, of 127 frames, is left out: a sender that waits for room there, as it does
-- while a client stops reading, holds `clients` meanwhile, and the model does not show it. The
-- channel of a client's socket task holds 100 frames, for what the task itself sends. Operations of
-- the server run one after the other, each to its end, save in Server/Locks, where tasks are lists
-- of what they lock and free and any of them may go on; there an operation may return early, after
-- as many of its actions as `cut` gives. What an operation sees of another one that changes the
-- maps between two of its locks is not modelled. A switch that ends a client's tasks is an entry of
-- a store in the state, and the calls of the one callback are a list there. A clock's instant is an
-- argument, in microseconds. `add_topic` calls itself for metatopics; fuel bounds the depth, and
-- two calls are enough.
--
-- Parameters. `Wire` has JSON (serde_json), MessagePack (rmp, rmp_serde) and the type of a value
-- (frclib_core), `ClientWire` what the client needs besides, among it the type that a text names,
-- `Msgpack` the decoder of binary frames and `Readings` how a value reads as a number; values are
-- of an unknown type. The functions that tell an integer (rmpv), write a single message and judge
-- an error of the socket are arguments. The theorems ask of them only what they name: that a text
-- or a value can be written or read, and that JSON writes a message as an object and reads a list
-- from no text that begins like one.
--
-- Not modelled: the calls of hyper, tokio and tungstenite that open sockets and start tasks
-- (`run_server`, `start_host_websocket`, the first connection of `setup_socket`, most of the
-- `start`s), the capacity of the other channels, the functions of the user, logging, and
-- src/client/blocking_handle.rs, which passes each call on. Server/Locks has `connect_client` for
-- each way that its metatopics are known, and of the operations that publish, unpublish and
-- disconnect the branches that it names.
pub mod Base
pub mod BiMap
pub mod Spec
pub mod Server
pub mod Client
mod Tests
