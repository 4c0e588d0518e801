-- ===== src/Lib.antt =====
-- k10s is a Kubernetes console: a server (crates/k10s-server) keeps one control WebSocket for each
-- client, a backend (crates/k10s-backend) talks to the cluster, and a UI draws what arrives.
--
-- Outbound models crates/k10s-server/src/outbound.rs, the bounded priority queue in front of each
-- socket, and the part of control.rs that numbers the frames. `Outbound/Queue.antt` has the entries
-- and the choice of the next one, `Outbound/Scheduler.antt` the operations under the Rust names, and
-- `Outbound/Session.antt` the sequence counter, the closures that build sequenced frames, and the
-- steps of a connection, with its writer, which may lose its lease or its socket. A message is of any
-- type `M`. `compatibility::prepare_message`, which rewrites a frame for an older protocol, is the
-- parameter `prepare_message`. The mutex makes each operation one step. A closure that may touch shared state takes that state and returns it, and an
-- `expect` that fails is the answer `panic`. `recv` returns `waiting` where the source waits for a
-- notification.
--
-- Operation models crates/k10s-backend/src/operation/{state,idempotency}.rs, the registry of
-- background operations. `Operation/Records.antt` has the data, `Operation/Idempotency.antt` the
-- store of keys, `Operation/Engine.antt` admission and replay, `Operation/Lifecycle.antt` the
-- transitions and reads, and `Operation/History.antt` the calls as steps. The clock is an argument of
-- each call, an `Instant` is a number, and `duration_since` is the truncated difference. The text of
-- an operation's id is the parameter `format_id`. A `HashMap` is an association list, whose order no
-- operation of the source depends on but `subscribe`, which sorts. A `while` loop that removes one
-- victim in each round has as many rounds as the map has entries, and no more can be of use.
--
-- Resume models crates/k10s-server/src/resume.rs, which keeps the frames that a socket sent, for the
-- client that comes back. `Resume/Journal.antt` has the journal of a session, `Resume/Registry.antt`
-- the sessions and their claim, `Resume/Leases.antt` the writers' side and the calls as steps. A
-- takeover channel is a number, the arguments of a claim are a record, and the age of a frame or of a
-- session is measured at the time of the call. The test-only `claim` is left out, and a profile's
-- capabilities are taken as they are after `ResumeProfile::new`.
--
-- Access models crates/k10s-server/src/auth.rs: `Access/Tokens.antt` the constant-time comparison of
-- tokens, which are lists of bytes, and `Access/Hello.antt` the answer to a `Hello`. The error's wire
-- code and text are left out.
--
-- Tickets models crates/k10s-backend/src/validation/ticket.rs, the single-use tickets between the
-- validation of an edit and its application. A UUID is an argument of the call that draws it. The
-- `while` of `issue` does nothing on an empty queue, so the model runs it on fuel, one round for each
-- queued name and one more, and it is proved to end.
--
-- Watch models crates/k10s-backend/src/watch.rs and runtime/{cache,supervisor}.rs, which publish the
-- rows of a watched selection: `Watch/Rows.antt` the selector and the rows, `Watch/Publisher.antt` the
-- cache, the counter and the publisher. The publication lock makes each publication one step. The
-- counter is shared, and another selection's use of it is a call of its own. Owner references and
-- projections are of any types. The rows of a `BTreeMap` are in the order of their arrival, not of
-- their keys. The task that lists and attaches to a cluster is left out.
--
-- Client models the state that the UI keeps of the server, crates/k10s-ui/src/client/state.rs, and
-- what the server sends to it: the frames of crates/k10s-protocol, the conversions of
-- crates/k10s-backend/src/kernel.rs, and `stream_snapshot` and `run_subscription` of
-- crates/k10s-server/src/control.rs. `Client/Rows.antt` has the rows and their identities,
-- `Client/Errors.antt` the errors, `Client/Lists.antt` the list of one watch, `Client/Pages.antt`
-- the server's pages of a listing, `Client/Snapshots.antt` the conversion of the backend's rows and
-- deltas, and `Client/Views.antt` the client's assembly of the pages. `Client/Arrival.antt` and
-- `Client/Delivery.antt` follow a listing from the server to the client, `Client/Shown.antt` and
-- `Client/Mirror.antt` a watch from the cache to the client's list, and `Client/Coalescing.antt` and
-- `Client/LostUpdates.antt` two runs of the server's queue between them. `Client/Forwards.antt` has
-- the port-forward sessions, with their lists in `Client/ForwardOrder.antt` and their history in
-- `Client/ForwardHistory.antt`. `Client/Operations.antt` has the retained operations and idempotency
-- keys, with `Client/Orders.antt`, `Client/Retention.antt`, `Client/KeyRetention.antt` and
-- `Client/MutationHistory.antt` about their eviction. `Client/Link.antt` has the fields of the
-- connection and of the requests, `Client/Connection.antt` and `Client/Requests.antt` their
-- operations, `Client/Bounds.antt`, `Client/RequestBounds.antt` and `Client/ResponseBounds.antt`
-- what these do to the capacities, `Client/Rebuild.antt` what a client asks for again after a
-- welcome, a gap or a resync, `Client/Frames.antt` the frames of a server that are no responses,
-- with the test of their sequence, `Client/SubscriptionBounds.antt` and `Client/FrameBounds.antt`
-- what these do to the capacities, `Client/LinkHistory.antt` the calls and the frames as steps,
-- `Client/ClosedCalls.antt` and `Client/Closed.antt` a closed connection, `Client/Retry.antt` the
-- reconnect timer, `Client/Failures.antt` the failures that are retained, and
-- `Client/Subscriptions.antt` and `Client/Preflight.antt` the desired subscriptions and the
-- preflight of a batch of changes to them. The conversion of a projection is the parameter
-- `map_projection`, the bytes of a row as JSON are the parameter `to_vec`, and the text of a
-- subscription's ID is the parameter `format_id`. The record `Actions` holds the text of a request's
-- ID, the queries that the client begins by itself, and the reading of a selector. A map is an
-- association list, and the order of a `BTreeMap` is left out where no result depends on it. Clocks
-- and entropy are arguments. The encoding of a payload is taken to succeed. Of a response, `answer`
-- has the correlation and the bookkeeping; the decoding of its payload, and what single queries
-- change beside that, are left out. An eviction loop has as many rounds as its queue has names and
-- one more, and the pages of a listing are at most as many as its rows, so no fuel runs out.
--
-- Wire models the codec of the log and exec frames, crates/k10s-protocol/src/stream.rs, in
-- `Wire/Payload.antt`: a frame is a list of bytes.
--
-- Names: `record` is a word of the language, so `SessionJournal::record` is `journal_frame`, and the
-- field `record` of `Retained` is `operation`. `running`, `succeeded`, `failed` and `outcome_unknown`,
-- which are states, are `set_running` and so on as operations.
--
-- Not modelled: the rest of the control socket, the Kubernetes and in-memory adapters, and the windows
-- and views of the UI, which are I/O or drawing around these parts; logging; and, of the client's
-- state, exact resource watches, the first subscription of the port-forward stream, the results of
-- single queries, and the caches of infrastructure and traffic.
pub mod Access
pub mod Base
pub mod Client
pub mod Operation
pub mod Outbound
pub mod Resume
pub mod Tickets
pub mod Watch
pub mod Wire
