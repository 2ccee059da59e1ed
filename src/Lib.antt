-- ===== src/Lib.antt =====
-- grunyas is a pooling proxy for a cluster of PostgreSQL servers. Clients speak to one of three
-- ports: write, read and compat. For each statement or transaction the proxy chooses a server,
-- leases a connection to it, and publishes an event that tells why.
--
-- The parts and how they interact. A probe for each node (internal/probe) asks the server for its
-- role, its system identifier and its lag, and reports to the topology (internal/topology), which
-- keeps the last report of each node and shows views of them that expire. The policy engine
-- (internal/policy) evaluates the views and keeps for each policy and node a state machine with
-- dwell and release times. The classifier (internal/classifier) takes a statement for a read or a
-- write. The routing pipeline (internal/routing) filters the nodes by role and policy, selects one
-- and takes a connection from its pool; its events go to the subscribers of the bus
-- (internal/decisions). The proxy (internal/server/proxy) lets connections in and closes idle
-- ones. The session (internal/server/session) runs a client's messages, takes a connection for
-- them and gives it back, and on the compat port asks for a lease by the class of the first
-- statement of a transaction; internal/server/messaging says which messages need a connection for
-- good. A client logs in first (internal/server/downstream_client, internal/auth). The settings
-- are those of config, which are validated before anything starts. A connection is reset before it
-- goes back to the pool (internal/pool/upstream_client). The admin interface (internal/admin)
-- shows the state of all this to the holders of a token, and internal/logger logs the events of
-- the bus.
--
-- The files. Prelude: the libraries' names, Boolean tests, lists, maps as association lists.
-- Topology/Types, State, View, Sink: types.go and topology.go, with `new`, the readers (`nodes`,
-- `node`, `primary`, `replicas`, `pool_for`) and the methods of the probes' interface (`deliver`).
-- Probe/Types, Round: probe.go, with `probe_once`, the counter of failures and the timer.
-- Policy/Types, Evaluators, Machine, Engine: evaluators.go and engine.go, with `transition` split
-- into the state machine of one policy and node and the engine over all. Classifier/Text, Scan,
-- Statement, Truncate: classifier.go. Decisions/Events, Bus: events.go and bus.go. Routing/Filter,
-- Select, Pipeline, Request, Lease, Observe: pipeline.go, with `filter_candidates`, `select_node`,
-- `emit_event`, `lease` and `update_policy_evaluation`. Decisions/Ulid: ulid.go. Session/Boundary,
-- Window, Compat: the parts of session.go for the compat port. Session/Loop: `Run` with
-- `acquireUpstream`, `releaseUpstream` and messaging's `Process`. Messaging/SessionState:
-- session_state.go. Login/Client, Authenticator, StoredScram, Start: client.go, auth.go and the
-- first part of `Run`. Proxy/IdleSweeper, Admission, Leases: idle_sweeper.go and proxy.go, with
-- `handleNewIncomingConnection` and `acquireUpstreamLeaseWithSQL`. Config/Types, Problems,
-- ServerChecks, NodeChecks, Validate: config.go and the records beside it. Routing/Histogram: the
-- histograms of pipeline.go. Upstream/Reset: session_client.go. Admin/Access, Redact, Views,
-- Pools, Collect: admin.go, with `authMiddleware` and the routes, `walkRedact`, the JSON of the
-- handlers and the two collectors; Admin/Stream: the stream of events. Startup: what `main` in
-- cmd/main.go decides after the first probes. Session/Modes and Proxy/Rejections: the pool mode of
-- a session, and the rejections and statistics of the proxy. Logger/Channel, Exporter: channel.go
-- and decision_exporter.go. The other files of each folder hold proofs and are named for what they
-- prove; Examples applies the theorems listed below to concrete inputs.
--
-- How state is modelled. A method that takes a lock is a function from the state to the result and
-- the new state; runs are lists of calls or events in the order in which the locks let them
-- through. A method that takes a lock more than once is more than one step, or reads more than one
-- state (the reads of `lease`, the late send of the bus). The clock is an argument, in
-- nanoseconds. A Go map is an association list, and theorems hold for every order of its entries.
-- A panic is `none`.
--
-- Bounds and fuel. The loops of the classifier run on fuel, one more than the length of the text,
-- and each round shortens the text, so that the fuel never runs out; so does the loop over the
-- comments in internal/server/messaging. The sweep of idle sessions runs on the number of its
-- entries, since no round leaves the entry that it looks at overdue. The round-robin counter wraps
-- at 2 ^ 64; counters of events are numbers without a bound. Durations in milliseconds are natural
-- numbers. Texts are bytes, and only ASCII space and letters count as such.
--
-- Not modelled: the wire protocol, TLS, the HTTP server and its router, the pool of connections
-- and the driver (libraries, of which a lease, a reset or a round takes the answers); the console,
-- the set-up of logging and the rest of the start, which wire the parts together; and, of the
-- parts above, the read loops of a session, the listener and the shutdown of the proxy.
pub mod Prelude
pub mod Probe
pub mod Topology
pub mod Policy
pub mod Classifier
pub mod Decisions
pub mod Config
pub mod Proxy
pub mod Login
pub mod Messaging
pub mod Upstream
pub mod Admin
pub mod Logger
pub mod Startup
pub mod Routing
pub mod Session
pub mod Examples
