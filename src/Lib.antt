-- ===== src/Lib.antt =====
-- A verification library of the b7s node: a peer-to-peer daemon in which a head node picks workers
-- for an execution request, and the workers may agree on it by PBFT or Raft before they run it.
--
-- Modelled is the PBFT consensus (consensus/pbft): the whole of a replica, from the message that has
-- been unpacked to the messages that it sends, with the view changes and the error paths; and what the node does
-- for an execution: which messages it handles, how the head node chooses the peers, forms a cluster,
-- asks them and makes something of their results, and what a worker answers; the store; and the
-- command line by which the executor runs a function.
--
-- Common: tests, lists, Go strings as bytes, encoding/hex, and Go maps as association lists. A range
--   over a map follows its list; Go leaves the order open, and the theorems are about lists in any
--   order.
-- Models.Execute: requests and results (models/execute, models/response). The resource usage and
--   the metadata are opaque.
-- Models.Function: function records, manifests and peers (models/blockless).
-- Pbft.Core, Message, Config, State: the data of core.go, message.go, message_signature.go, config.go,
--   params.go, state.go, receipts.go, and the struct Replica of pbft.go.
-- Pbft.Action: what is outside (JSON, SHA-256, keys, network, executor) as the record Env, and the
--   monad of the handlers: an action on the replica that may fail and keeps what it wrote.
-- Pbft.Signature, Messaging, Timer, Conditions, Execute, Commit, Prepare, PrePrepare, Request,
--   Cleanup, ViewChange, NewView, Process: a module for each source file, a function for each
--   function there. Long handlers are cut into named parts at their early returns. Cleanup holds
--   cleanupState and outstanding.go, NewView also processViewChange, and Process the entry points
--   of pbft.go and execute.go.
-- Pbft.Json, Serialization: the JSON forms of the messages (serialization.go), over a type of JSON values
--   in place of their text.
-- The children of these modules hold the proofs, and Pbft.Receipts those about all receipts.
-- Pbft.Evolve: the few kinds of writes that the handlers are made of, for relations that hold of any
--   run of inputs; Pbft.Order, Ascent, Placed, Reached and Agreement are about such
--   runs.
-- Node.RollCall, Attributes: the choice of peers by the head node (the loop of executeRollCall in
--   node/roll_call.go, over the replies and the timeout in their order), and whether a worker has the
--   attributes that a request wants (haveAttributes in node/attributes.go).
-- Node.Results: how a head node collects the results of an execution (node/execution_results.go). The
--   goroutines of gatherExecutionResultsPBFT meet only at its lock, so they are a list of arrivals in
--   the order of the lock, each a response or, after the timeout, none. The text of
--   peerResultMapKey is the pair of what it prints, the output and the timestamp.
-- Node.Aggregate: the groups of equal results and their order (node/aggregate).
-- Node.Gate: the messages that are handled (node/pipeline.go, node/process.go). Node.Sending: sendToMany.
-- Node.Queue, Waiting: the responses to roll calls (node/queue.go), and the map on which calls wait
--   (node/internal/waitmap). A channel is the list of what it holds; a blocked send has no result.
-- Node.Cluster: forming a cluster; Cluster.Member: joining and leaving (node/cluster.go,
--   node/consensus.go). Node.Head, Work: an execution on the head node and on a worker. What other
--   nodes do is given by functions and by lists of arrivals in their order; a float64 is a fraction.
-- Executor.Paths, Command: the paths of a request, and the command line and environment of a function
--   (executor); Decimal: the digits of a uint64, with fuel for twenty, which is enough below 2^64.
-- Raft: the state machine that the Raft library drives, an execution by the leader, and the callbacks
--   of the node (consensus/raft, node/consensus.go).
-- FunctionStore.Install, Sync, Files: installation and synchronisation of functions (fstore), on Outside,
--   the file system, the downloads and the database as a record of functions, with the laws that the
--   theorems rely on. World: the operations of Archive, unpacking an archive (fstore/gzip.go), and of
--   Store.Records on the disk and the database. Noting the time of a retrieval, which is in the
--   background, is taken to come right after the retrieval. Common.Path: what
--   `filepath` makes of absolute paths.
-- Store.Key, Records: the keys and the operations of the store (store). Database has what they call, the
--   database (Pebble), the codec and the binary form of a peer ID, as a record of functions, with
--   the laws that the theorems rely on. View: the two maps that a client sees.
-- Pbft.Tests, Node.Tests, Store.Tests, Executor.Tests,
--   FunctionStore.Tests, Raft.Tests: a cluster of four, a database in memory, tests, and each theorem
--   at a concrete input.
--
-- A replica handles one message, request or timer at a time, under its state lock; so a handler is a
-- function from state to state, and concurrency is the order of the inputs. The sends of a broadcast
-- are made in the order of the peers. What the network and the executor answer may depend on all
-- events before. The history of a replica is the model's own record of these events. uint is 64 bits
-- wide: the increments of sequence numbers and views wrap; 2f + 1 cannot, since f < 2^64 / 3. The
-- loops are recursions on lists or on the number of rounds left, so no other fuel is needed.
--
-- Not modelled: logs, spans and metrics; the host, the REST API, the command line and the configuration;
-- of the node the subscriptions, health pings and installs; the creation of a Raft replica and its
-- election; and the processes and limits of the executor. They are I/O and glue of libraries. Nor are
-- the panic and the endless loop of a new view whose highest sequence number is close to 2^64.
pub mod Common
pub mod Executor
pub mod FunctionStore
pub mod Models
pub mod Node
pub mod Pbft
pub mod Raft
pub mod Store
