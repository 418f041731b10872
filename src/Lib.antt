-- ===== src/Lib.antt =====
-- The NVIDIA NMOS daemon, nvnmosd (rust/nvnmosd), and of its GStreamer client the channel mapping, the
-- flow definitions and the packet sizes (rust/gst-nmos-rs/src/channel_mapping, src/flow_def.rs,
-- src/domain.rs and src/nvdsudp/packetization.rs). Of the daemon: the state that it keeps behind its
-- mutex and every method that changes it, the order in which its RPC handlers and callbacks come to take
-- that mutex, and what can be relied on whatever that order is.
--
-- The program. libnvnmos runs NMOS Nodes. The daemon shares them between clients: a session opens a
-- Node by its seed, or attaches to it; it adds senders, receivers (IS-05) and channel mappings (IS-08)
-- to the Node; an activation that a controller makes on the Node is routed to the stream of the session
-- that owns the resource, and waits for that session's acknowledgement. rust/nvnmosd/src/state.rs holds
-- the state, as one struct `State` of hash maps and counters; src/main.rs holds the RPC handlers, which
-- lock the state, call a method, release the lock, call libnvnmos, and may lock again to commit.
--
-- The files.
--   Common, HashMap        shared helpers: numbers, lists, byte strings; `std::collections::HashMap` by
--                          its laws.
--   Wrapper                the data types of rust/nvnmos/src/lib.rs that the daemon uses.
--   Daemon/Types, State    the entries of the maps, `State`, `State::new` and the handles.
--   Daemon/Status          the gRPC codes and results.
--   Daemon/Ports           `PortRange` (src/http_port.rs) and `State::resolve_http_port`; Ports/Choice.
--   Daemon/Sessions        `prepare_open_session`, `commit_open_session`, `abort_pending_node`,
--                          `prepare_add_node`, `commit_add_node`, `remove_node`.
--   Daemon/Closing         `close_session`.
--   Daemon/Streams         `subscribe_activations`, `subscribe_annotations`,
--                          `subscribe_channelmapping_activations` and the ends of the streams.
--   Daemon/TransportFile   `transport_file_name`; TransportFile/Names.
--   Daemon/Resources       `prepare_add_resource`, `commit_add_resource`, `remove_resource`,
--                          `sync_resource_state`.
--   Daemon/Activations     `dispatch_activation`, `complete_activation`, `cleanup_pending_activation`, and
--                          `route_activation` of src/main.rs.
--   Daemon/ChannelMappings `prepare_add_channelmapping`, `commit_add_channelmapping` and the conversion of
--                          their messages; MappingRoutes has the other methods on channel mappings.
--   Daemon/AnnotationStore `AnnotationStore::apply`, `get` and `annotation_at_create` of
--                          src/annotation_store.rs; AnnotationStore/Stored for the form that entries
--                          have, AnnotationStore/Views for what a client sees of them.
--   Daemon/Annotations     `prepare_annotation_update`, `annotation_snapshot`, `publish_annotation`,
--                          `emit_added_resource`, and the handler of `SubscribeAnnotations` of
--                          src/main.rs; Annotations/Messages has the messages, both ways, and
--                          Annotations/Updates the way of an update to the store and the streams.
--   Daemon/Requests        `translate_config` and what it calls; Requests/Accepted.
--   Daemon/Watchdogs       src/session_gc.rs, with src/env_config.rs: the watchdogs that close abandoned
--                          sessions; Watchdogs/Firing.
--   Daemon/Steps           the locked sections as a step relation on the state and on what the handlers
--                          carry from one section to the next.
--   Daemon/Nodes, Index    what makes the bookkeeping of Nodes, sessions, ports and resources consistent,
--                          and the methods one by one; Unmoved for the methods that do not touch it.
--   Daemon/Steps/Valid     the same for every step, and so for every run.
--   Daemon/Promises        what the methods promise, on every valid state.
--   Daemon/Tests           runs on concrete inputs.
--   ChannelMap             the IS-08 element of rust/gst-nmos-rs (src/channel_mapping): Topology is
--                          types.rs, Validation and Matrix are matrix.rs, ActiveMap the dense form and
--                          the default routes of active_map.rs; what they guarantee stands in
--                          the children of each.
--   FlowDef                MXL flow definitions (src/flow_def.rs, src/domain.rs): Json is what they rely on
--                          of serde_json, Types the enums, Read the readers, Read/Resolve the merging of
--                          properties with files, Splice `splice_overrides`, Caps/Build `from_caps`,
--                          Caps/Parse `caps_from`; Spliced, Overridden, Roundtrip, Read/Resolve/Agreement and
--                          Caps/Document to Caps/Essence for their proofs.
--   Packets                the packet sizes for DeepStream's ST 2110 elements
--                          (src/nvdsudp/packetization.rs); Lines, Video, Audio and Ancillary.
--
-- How the code is rendered. A method takes the state and returns its result beside the state that it
-- leaves. A `Status` is its code; messages and tracing are left out. A `NodeServer` is a number, since
-- the daemon only passes it on; so are the halves of a channel. The libnvnmos calls that a method
-- prepares for after the lock is dropped are values of the model (`CloseSessionFfi`,
-- `RemoveResourceFfi` and the like). What the daemon asks of other code is an argument: whether a
-- port can be bound, whether a channel is closed (each call of it separately, since the answer can
-- change), what `try_send` and `recv_timeout` answer, and the name tag of a flow definition, which
-- serde_json reads. The counters are 64-bit and wrap; the steps that take a new session or resource
-- handle require that theirs does not. A hash map iterates in some order; the model takes the newest
-- entry first, and no theorem rests on that order.
--
-- In the channel mapping, `u32` sums wrap, as in a release build, and the theorems on the bus require
-- that the channels of all pads are fewer than 2 ^ 32. A coefficient of a matrix is `silent` for 0.0 or
-- `unity` for 1.0, the two that the code writes.
--
-- In the flow definitions, serde_json is the record `JsonLib`: a parser that reads back what the printer
-- prints of a value that is exact (without floating-point numbers, and not nested too deeply), the
-- variants of `Value` with their `as_*` methods, and objects as maps. The readers that serde
-- derives are arguments; of the one for caps it is assumed that it finds each field of a document that
-- carries it in its type (`Deserialises`). The structures of GStreamer are `GstLib`: a builder whose fields
-- can be looked up, and fractions that are kept by `new`. Instances of all three stand in FlowDef/Tests.
--
-- There is no fuel beside that of the decimal printing of a number, which is one more than the number;
-- the loop of `choose_packets_per_line` recurs on how many numbers of its range are left.
--
-- Not modelled: the file in which annotations are kept and the thread that writes it, the passing of time,
-- the sockets and logs of the daemon; the reading of a packet time as a floating-point number, which is an
-- argument of Packets; SDP, and the sessions and elements of the GStreamer client, which are glue to
-- GStreamer and tokio; and the bindings, benchmarks and examples.
pub mod Common
pub mod HashMap
pub mod Wrapper
pub mod Daemon
pub mod ChannelMap
pub mod FlowDef
pub mod Packets
