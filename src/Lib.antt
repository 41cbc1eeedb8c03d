-- ===== src/Lib.antt =====
-- NetPulse: monitoring of a network from its nodes, which form a mesh.
--
-- Seven parts are modelled: the mesh with its streams, the updates of a node, the operations center, the
-- park of machines with its watchdog, the rules of self-healing, the messages of SNMP and the RouterOS
-- client. The watchdog notes events in the inventory, which calls the rules; updates ask other nodes
-- over the mesh. The other parts do not call one another: the server polls routers through SNMP or the RouterOS API and reports to the operations center and to
-- the rules, and the mesh carries requests and streams between nodes.
--
-- Mesh: netpulse/p2p_core/networking/neighbor_table.py. `Mesh/Neighbors.antt` has the table
-- (`NeighborTable`, a record with a dictionary in the order of insertion) and its methods under their
-- own names; the time of each call is an argument. `Mesh/Neighbors/Gossip.antt` has `merge_gossip`, a
-- loop over the entries of a packet, and `Mesh/Neighbors/Sweep.antt` has `sweep`, three loops over the
-- table. `Registry` under it has the invariant, `History` a history of calls. The lock is left out:
-- each method holds it from start to end, so that a history is a sequence of calls.
--
-- `Mesh/Router.antt` models netpulse/p2p_core/networking/router.py: the state of a router (`Router`,
-- with its sockets as numbers and the neighbor table that it reads) and `_forward`, a function to a
-- socket, the packet sent over it and the router. `Mesh/Router/Passing.antt` has the handlers that
-- pass packets on: `_on_forwarded`, `_on_remote_request`, `_forward_stream_open`,
-- `_forward_stream_data` and `_route_back`. A packet's `ttl` is an integer, since the code lets it
-- fall below zero, and so is a distance, which gossip brings off the wire. In `Transit` a journey is a list of routers, each in any state, that the packet
-- passes one after the other.
--
-- `Mesh/Node.antt` and `Mesh/Node/Handle.antt` have the dispatch: a node is a router with its table of
-- sessions, its registry of streams and its index of certificates, and `handle` is a function to the
-- packets that are sent, each with its socket, and the node afterwards. What the services do with a
-- request is an argument (`Services`), since they are loaded at run time. A packet's data are a data
-- type with the dictionaries that the protocol itself reads. `Mesh/Node/Iterator.antt` has
-- `send_stream_ack` and the iterator of `Router.stream`, `Mesh/Node/Transfer.antt` a stream from one
-- node to another, `Mesh/Node/Calls.antt` `call` and `stream`, each cut where it waits for its
-- answer. `open_stream` of netpulse/p2p_core/internal_modules/executor.py is part of the answer to
-- STREAM_OPEN, without the consumer that it starts.
--
-- `Services.antt` models netpulse/p2p_core/services/manager.py, a dictionary of dictionaries, over any
-- type of objects and methods; what `get_generators` finds in a service is a field of it.
--
-- Streams: `Streams.antt` models the pipes of netpulse/p2p_core/internal_modules/memory.py, `Dispatch`
-- the choice of a pipe for an item and the end of `Dispatcher.run`, `Pump` `_pump`, and `Registry`
-- netpulse/p2p_core/networking/stream_registry.py, with pipes as numbers of a heap. A call that waits
-- is `none`. The queues are those of asyncio: bounded, and without bound at length 0. The thread of
-- the generator is left out.
--
-- `Mesh/Sessions.antt` models netpulse/p2p_core/networking/sessions.py: the table of waiting requests
-- (`SessionTable`), with the futures and queues that it names as objects of a heap.
--
-- `Mesh/Certs.antt` models netpulse/p2p_core/internal_modules/certs_index.py: `CertsIndex` and its
-- methods, with their loops as functions on its dictionary.
--
-- Updates: `Updates/Versions.antt` models netpulse/p2p_core/internal_modules/app_version.py.
-- netpulse/p2p_core/internal_modules/updater.py is in `Updates/Boot.antt` (the boot marker, `start` and
-- the rollback), `Updates/Install.antt` (`_validate_transition` and `check`), `Updates/Download.antt`
-- and `Updates/Apply.antt`; netpulse/p2p_core/internal_modules/update.py is in `Updates/Core.antt`.
-- Files are a dictionary from paths to contents, and the state file is an optional record. What the
-- system, other nodes and the files service do (whether a call succeeds, how a copy ends, what
-- arrives in each turn of a wait) is an argument, as are digests and signatures; the wait has the
-- 120 turns of the code. `Updates/Rollout.antt` puts the parts together.
--
-- Operations: netpulse/operations.py, with its database as a record of tables (`Store`), a
-- transaction as a function from a store to a result and a store, an exception as `raise`.
-- `Operations/Incidents.antt` has `open_incident`, `incident` and `change_incident`;
-- `Operations/Routers.antt` has `observe_router`, `Operations/Alerts.antt` `receive_alerts`. The fresh
-- identifiers, the digest of labels and the configured routers are arguments.
--
-- Park: netpulse/inventory.py and netpulse/watchdog.py. `Inventory.antt` has the tables of hosts and
-- events and the methods on them, `note_event` with `on_event` of the rules, `Watchdog.antt`
-- `_poll_host`, a function of what the machine answers. Times are seconds of local time.
--
-- Healing: netpulse/healing.py. `Healing.antt` has `on_event` with its rules and `status_list`; the executions of
-- runbooks are a list, and 3600 / max(1, n) is compared in whole numbers.
--
-- SNMP: netpulse/infra.py. `Snmp/Ber.antt` has `_len`, `_tlv`, `_int_enc`, `_oid_enc`, `_tlv_parse`
-- and `_oid_dec` on lists of bytes; their loops on numbers recurse on
-- accessibility, so that no bound is chosen.
-- `Snmp/Messages.antt` has the request of `snmp_get` and `parse_snmp_response`, whose loop has a step
-- of fuel for each byte of its list, and one to leave it. Each round reads a record of two bytes or
-- more, so that the fuel is enough.
--
-- RouterOS: netpulse/routeros.py. `Routeros.antt` has `encode_length`, `_length`, the words that
-- `_exchange` sends, and its loop over the words that come, whose variables are the record `State`. A
-- turn of the loop reads a byte or more, so that a turn for each byte and one more are enough. The
-- input is the list of the bytes that come; a closed connection and a deadline both end it.
--
-- `Base.antt`, `Text.antt` and `Dict.antt` have what the parts share: tests on numbers, Python's
-- strings as lists of code points and dictionaries as association lists. Times are whole numbers,
-- and `strip` and `lower` are those of ASCII.
--
-- Not modelled: sockets, threads, processes and files; the server's handlers, the user interface,
-- the assistant and the tools; and the other modules of netpulse/.
pub mod Base
pub mod Text
pub mod Updates
pub mod Services
pub mod Dict
pub mod Mesh
pub mod Operations
pub mod Snmp
pub mod Routeros
pub mod Streams
pub mod Healing
pub mod Inventory
pub mod Watchdog
