-- ===== src/Lib.antt =====
-- Verification of mill, a container orchestrator: nodes form a cluster with Raft, a primary
-- schedules allocations of services and tasks, secondaries run them, and a proxy, a DNS server and
-- a watchdog follow the replicated state.
--
-- The parts and where they are modelled:
-- - Config (crates/config/src/types): the data types. Runtime is runtime.rs and interface.rs, Env is
--   env.rs, Resolved is resolved.rs.
-- - Fsm (crates/raft/src/fsm): State is state.rs, Command is command.rs, Apply is apply.rs with one
--   function for each command. Valid, Errors, Heartbeat, Removal and Resources are about it.
-- - Store (crates/raft/src/fsm/mod.rs): the state machine store that openraft drives, batch by
--   batch, with its snapshots. Replay and Snapshots are about it.
-- - Log (crates/raft/src/log_store.rs): the log in memory, with its Laws.
-- - Ports (crates/net/src/ports.rs): the pool of host ports. Invariant, Runs and Ownership are about
--   it.
-- - Scheduler (crates/node/src/primary/scheduler.rs): the placement. Candidates, Placement, Spread,
--   Packing and Choice are about it.
-- - Deploy (crates/node/src/primary/deploy): Diff is diff.rs, Equality the derived equality that it
--   uses, Validate is validate.rs. Partition and Secrets are about them.
-- - Proxy (crates/proxy/src/proxy/routes.rs): the table of routes. Sorting, Grouping and Matching
--   are about it, and Backends is crates/node/src/primary/proxy.rs on top of it.
-- - Rpc (crates/node/src/rpc): Codec is codec.rs, with Framing about it, Protocol is protocol.rs, and
--   Router is router.rs with the errors of crates/node/src/error.rs, with Routes about it, and
--   Reconnect its connections, with Reconnect.Backoff about them.
-- - Primary (crates/node/src/primary): World is what a task acts on. Resolve, Start, Rollout and
--   Rolling are deploy/mod.rs, Tasks is tasks.rs, Nodes is nodes.rs, Health is health/mod.rs, Reports
--   and Processor are report.rs, Watcher is the connections of mod.rs, with Watcher.Rounds about it, and Dns is dns.rs with set_records of crates/net/src/dns/mod.rs.
--   World.Events, Start.Kept, Start.Frame and Start.Outcome, Rollout.Stops, Rolling.Updates, Rolling.Replaced and
--   Rolling.Refused, Tasks.Kill and Tasks.Leftover, Nodes.Drain, Health.Readiness, Reports.Durations,
--   Processor.Effects and Dns.Records are about them.
-- - Secondary (crates/node/src/secondary): Logs is logs.rs, Allocations is state.rs, and Reporting
--   joins the second to the replicated state. Runner is runner.rs, with Runner.Ports and Runner.Exits
--   about it, Metrics is metrics.rs, with Metrics.Rates about it, Beat is heartbeat.rs, and Reconcile is reconcile.rs, with Reconcile.Restored about it.
-- - Validation (crates/config/src): the raw configuration, the errors and validate/constraints.rs;
--   Refs is validate/refs.rs, with References about it, Parse is validate/parse.rs, with Parse.Spelling
--   and Parse.Named about it, and Resolve is validate/mod.rs, with the rest of Resolve about it.
-- - Watchdog (crates/node/src/primary/watchdog.rs): Restarts is check_service_restarts, with Backoff
--   about it, and Heartbeats is check_heartbeats, with Silence about it.
-- - Container (crates/containerd/src): the labels of spec.rs and lib.rs, with Labels about them. Oci is
--   the specification of spec.rs, with Oci.Env about it, and Lifecycle is container.rs, with
--   Lifecycle.Rollback about it.
-- - WireGuard (crates/net/src/wireguard): the commands of mod.rs and cmd.rs, with Peers about them.
-- - Clock (crates/node/src/util.rs): dates and times, with Months and Calendar about them.
-- - Prelude holds what they share, and Examples runs the theorems on small inputs.
--
-- How the code is written here: a method that changes its receiver returns the new state, with its
-- answer beside it. A HashMap is a list of entries (Prelude.Maps), whose order stands for an order of
-- iteration that the program leaves open; a BTreeMap with numbers for keys is a list in ascending
-- order (Prelude.Sorted). Numbers are natural, and where the code wraps or saturates this is written
-- out. An f64 is its bit pattern, and the operations of the processor are a parameter
-- (Prelude.Float). openraft's types and serde_json are parameters. Times are nanoseconds. Locks are
-- not modelled: a method that holds one is a single step, and so is stop_container of a secondary, in
-- which no exit waiter fires. A call of containerd that is answered with an error has had no effect.
--
-- An async task of the primary is a do block over an action (Prelude.Exec): a function of the world
-- that returns a result or an error, and the world after it. Before each of its actions the commands
-- that other tasks have committed since the last one are applied, any list of them, and everything
-- outside (openraft, the cloud, the network, containerd, random suffixes) answers by the number of the
-- action. The world keeps the events of the task: its proposals, its commands to nodes and its calls of
-- the cloud. A wait for a change of the state has as many rounds as changes come before its deadline,
-- which is an answer from outside too. The exit waiter of a container is a function that may be called
-- at any later time.
--
-- Bounds: the decimal print of a number takes fuel for 20 digits, which is enough below 2 ^ 64. The
-- readiness loops take fuel for a round for each failure up to the threshold and at least one, and for
-- a round for each
-- poll interval of the timeout and two more; Primary.Health.Readiness is about
-- them. An environment value is parsed on fuel for
-- each of its characters and one more, as Validation.Parse.Spelling shows, and a lost connection is
-- dialled on fuel for the attempts; Rpc.Reconnect.Backoff is about it. No other definition has fuel.
--
-- Not modelled: the events that a deploy sends to the client of the HTTP interface, the loop over
-- the commands of a secondary, the answers of the DNS server, the HTTP interface, the RPC server,
-- certificates, the list of WireGuard peers, containerd's images and statistics, and the command
-- line. Most of these are I/O around the parts above.
mod Prelude
pub mod Config
pub mod Container
pub mod Validation
pub mod Fsm
pub mod Store
pub mod Log
pub mod Ports
pub mod WireGuard
pub mod Clock
pub mod Scheduler
pub mod Rpc
pub mod Deploy
pub mod Proxy
pub mod Secondary
pub mod Watchdog
pub mod Primary
mod Examples
