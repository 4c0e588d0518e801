-- ===== src/Client.antt =====
-- The client's view of the cluster and of its requests: crates/k10s-ui/src/client/state.rs, with the
-- parts of the server and of the protocol that it meets.
pub mod Rows
pub mod Errors
pub mod Lists
pub mod Pages
pub mod Snapshots
pub mod Views
pub mod Arrival
pub mod Delivery
pub mod Shown
pub mod Mirror
pub mod Coalescing
pub mod LostUpdates
pub mod Forwards
pub mod ForwardOrder
pub mod ForwardHistory
pub mod Operations
pub mod Orders
pub mod Retention
pub mod KeyRetention
pub mod MutationHistory
pub mod Link
pub mod Connection
pub mod Requests
pub mod Bounds
pub mod RequestBounds
pub mod ResponseBounds
pub mod Subscriptions
pub mod Rebuild
pub mod Frames
pub mod SubscriptionBounds
pub mod FrameBounds
pub mod LinkHistory
pub mod ClosedCalls
pub mod Closed
pub mod Retry
pub mod Failures
pub mod Preflight
pub mod Examples
pub mod MoreExamples
pub mod LinkExamples
