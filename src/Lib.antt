-- ===== src/Lib.antt =====
-- A verification library for distributed-sensor-hub, a Python program that runs as a set of nodes. A node
-- reads sensors, replicates their values to the other nodes over TCP and shows all values on a web page.
--
-- The parts and their files:
-- - State: state/node_state_worker.py. Record is one stored value with the order by which a write
--   replaces another; Worker is `NodeStateWorker` (merge_update, _handle_sensor_event, run, the snapshots,
--   pop_replication_updates); Lww, Convergence, Single, Invariant, Running, Snapshot and Polling are about it,
--   Dump is dump_full_state, and Log is log_full_state with the periodic dump. A method that holds the
--   lock is one function; the threads of a node interleave by whole such calls (Invariant.Step).
--   Publisher is state/sensor_update_publisher.py (_publish_once, _send_to_peer), which takes the pending
--   updates of the worker to the client's queues; Publisher/Loop is its thread.
-- - Replication: the parts of several nodes together. Messages is what the messages of a publisher's round
--   carry; Hop is the way of one round to the state of a peer, through queue, connection, server loop,
--   dispatcher and handler; Loop is the publisher over the life of a node; Network is a network of
--   any number of nodes whose workers sense, publish, receive and are read in any order; Safety is a node
--   behind its server, whatever bytes arrive there.
-- - Membership: membership/. PeerTable is `Peer` and `PeerTable`; Handlers is
--   `make_membership_handlers`, over any state of the rest of the node that `send` and the callback act on.
-- - Protocol: protocol/. Message is message_types.py and message.py, with Python's JSON as a parameter,
--   Codec; Dispatcher, Handlers and Setup are the files of these names. A handler acts on Setup.Node, the
--   state that the handlers of one node share.
-- - Networking: networking/. Framing is the frame that both ends share; Server is the loop of one
--   connection in tcp_server.py, and Lifecycle its start, stop and accept loop as steps of threads;
--   Client is tcp_client.py, where a round of a peer's thread is one function of what the operating
--   system answers; Client/Socket is the socket of that thread and its sleeping, Client/Sending is send_json
--   with the serialisation. Link joins both ends with the dispatcher.
-- - Node: node.py. Links is what the handlers of a node act on besides the tables: the client and the set of
--   peers given to it. Join is a JOIN_REQUEST at a node with `send` and the callback that node.py passes.
--   Main is the order of the calls of `main` that start and stop the parts, some of which may raise, and
--   WebPort the port of the web API.
-- - Logging: utils/logging.py and the clearing of the log file in node.py, over files given by their lines.
-- - Config: utils/config.py over an environment; RoundTrip is the environment that describes a configuration.
-- - Sensors: sensors/. The root file has the classes, Manager is `SensorManager`; Python's floats and random
--   draws are the parameter Outside. Started joins them with the state worker's queue.
-- - WebApi: webapi/http_api.py, the request handler over the state worker; Faults is its error paths, and
--   Server is `WebAPIServer`.
-- - Value: JSON values and the keys of a Python dict. Base: equality tests, texts, lists, dicts, results.
--
-- A node's client and server meet in the bytes of a connection: what Client's drain writes is what
-- Server's loop reads. The loop decodes by Protocol and hands each message to Membership or to State.
--
-- Conventions: a Python dict is an association list in insertion order; an exception is a value; a float
-- is its 64-bit pattern; a text read from the environment is ASCII; a `bool` passes `isinstance(x, int)`
-- as it does in Python (PyInt). Times are arguments. The fuel of the connection loop counts frames, and
-- each frame takes four bytes at least, so any fuel above the number of bytes is enough.
--
-- A network (Replication/Network) is one function from node ids to workers, with the messages sent so far, those
-- that a round of a publisher lost as its table had no peers, and, for each node, those received. A message may arrive at any node at any time, any number of times or
-- never, which covers what the connections between two nodes do (Networking/Client/Delivery: in order, with
-- losses when a send breaks) and what a node does that is stopped or cut off.
--
-- Not modelled: the log lines that a part writes on its way (those of log_full_state are), the timeouts of joins
-- and of sockets, keep-alive, the set-up of the server's socket, the exception hooks of node.py, a table of
-- peers that changes while the publisher runs, manual_tests/send_ping.py, which is a script for use by hand,
-- and the files of docker/ and web/. gossip/ and fd/ are empty packages.
pub mod Base
pub mod Value
pub mod Config
pub mod Sensors
pub mod Protocol
pub mod Membership
pub mod Networking
pub mod State
pub mod Node
pub mod Replication
pub mod WebApi
pub mod Logging
pub mod Tests
