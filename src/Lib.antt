-- ===== src/Lib.antt =====
-- astrald, the daemon of the Astral Network, in the parts that carry its own logic: the sessions
-- that nodes hold with each other over one link, the paths that decide what a tree or a file
-- repository covers, the scheduler, the quota of objects in memory, groups of repositories, the
-- life of a NAT hole, the rules for datagrams, and the connections of the router.
--
-- Nodes (mod/nodes). Two nodes share a link and run many query sessions over it. Every message is a
-- frame (mod/nodes/frames). A query opens a session on both sides, each side announces how many
-- bytes it can buffer, and the sender spends that credit with Data frames; the reader gives credit
-- back with Read frames. A Reset ends a session, a Migrate frame moves it to another link.
--   Nodes/Frames: the eight frames; Codec has the ReadFrom methods, Writing the WriteTo methods,
--     RoundTrip and Partial what they do together. The opcode in front of a frame and the String
--     methods are not modelled.
--   Nodes/Buffers: InputBuffer (input_buffer.go) and OutputBuffer (output_buffer.go), with the
--     channel that wakes blocked callers in Wake. Method m of a Go type is function m; a method
--     that changes its receiver returns the new record.
--   Nodes/Callbacks: the callbacks that tie buffers to a link (mux_sessions.go, sessionOnWriteFunc,
--     sessionOnReadFunc, sessionResetFunc).
--   Nodes/Flow: a sender, a receiver and the frames on their way, under any schedule.
--   Nodes/Session: session (session.go), with muxSessionReader in Reader and muxSessionWriter in
--     Writer. A call that would block returns at the point where it waits, with what it has done.
--   Nodes/Mux: Mux (mux.go, mux_sessions.go) and session.Close, which reaches into it. Sessions are
--     shared objects, so the mux has a store of them, and its map holds references into the store.
--     RouteQuery is cut where it waits for the verdict: route_query, then route_verdict or
--     route_cancel. An inbound query is cut where its goroutine waits for the router, and after each
--     call that it makes then. Handle is handle, and a history is a list of frames, calls and such
--     steps in any order.
--   Nodes/Migration: a session's move to another link (session_migrator.go), with Complete in the
--     two halves that a Close can come between. The talk between the two sides over the query that
--     negotiates it (migrate_session.go, op_migrate_session.go) is not modelled.
--   Nodes/LinkPool: the pool of links (link_pool.go), with AddLink and Close in any order in
--     Shutdown. The strategies that make new links are not modelled, nor is a wait for them.
--   Nodes/Routing: how a query is routed over the node's links and over relays (query_router.go).
--
-- Paths (lib/paths/paths.go): PathUnder and WidestRoots in Paths, PathTrie in Paths/PathTrie.
-- WalkDir reads directories and is not modelled.
--
-- Scheduler (mod/scheduler): ScheduledTask in Scheduler/ScheduledTask; Schedule and the goroutines
-- it starts in Scheduler/Runner, one step for each point at which they meet. The pool locker and
-- the forwarding of events are not modelled.
--
-- Objects (mod/objects): the window of a read (read_limit.go) in Objects; the repository in memory
-- (mem/repository.go, mem/writer.go) in Objects/Memory, with its quota in Quota; a group of
-- repositories (src/repo_group.go) in Objects/RepoGroup, with a concurrent read in Race. A group
-- works with any members that have the interface of a repository (repository.go). The repositories
-- by name, with the groups that list them (src/repositories.go), are in Objects/Registry. Streaming
-- IDs (Scan) and the other repositories are not modelled.
--
-- Nat (mod/nat/src/hole.go): Hole, a punched UDP hole that is kept alive, locked and handed over,
-- in Nat, with a round of its loop in Nat/Lifecycle. BeginLock, finalizeLock and Expire take no
-- common lock: Nat/Interleaving has their steps in any order. A round of the loop is modelled with
-- nothing in between. The receiver is not modelled; a pong's send is recorded whether or not it
-- fails.
--
-- Ether (mod/ether/src): the rules that let a broadcast datagram in (receive.go) and the cache of
-- the local subnets (prefixes.go) in Ether. Parsing interface addresses and the sockets are not
-- modelled; the envelope's codec is a parameter, and a refresh takes no time.
--
-- Core (core): the connections of the node's router (router.go, conn.go) in Core, with Close at any
-- moment of the routing. The preprocessors of queries and the counting of bytes are not modelled;
-- the priority router is not part of the repository, so its verdict is an event.
--
-- Conventions. A byte and an integer are natural numbers; a w-bit field is cut to its width where
-- the source converts to it (the lengths in front of a Query and a Data frame). A string and a
-- slice of bytes are lists. A mutex that is held for a whole method makes the method one step.
-- Times, log lines and the creation time of a session are left out.
--
-- What is not in the repository is a parameter, with what the code relies on as its laws: the byte
-- order of encoding/binary and the 33-byte form of an identity (Nodes/Frames/Codec), the link's
-- channel, which may fail at any send (Wire in Nodes/Callbacks), sig.Set and sig.Map (Sig,
-- ObjectMap in Objects/Memory, PingMap in Nat), the envelope of a datagram, and the hash of an
-- object's bytes. The Tests modules and Nodes/Flow have an instance of each.
--
-- Loops. A loop over a slice is recursion on the list. sessionOnWriteFunc gets one round for each
-- byte, since a round sends one byte at least; Write of a session gets one round for each byte and
-- one more, and does not run out of them; Read of a session's reader goes round twice at most,
-- since the second time no buffer is queued.
--
-- Not modelled: the negotiation of links, the strategies that make them, the goroutines that copy a
-- session's bytes into its target (io.Copy), and the modules that are databases, network or user
-- interfaces.
pub mod Prelude
pub mod Sig
pub mod Nodes
pub mod Paths
pub mod Scheduler
pub mod Objects
pub mod Nat
pub mod Ether
pub mod Core
