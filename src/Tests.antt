-- ===== src/Tests.antt =====
-- Runs of the definitions on concrete inputs, and each theorem at an input that meets its
-- hypotheses.
mod Samples
mod Glob
mod Runs
mod Dispatching
mod Durability
mod Streams
mod Subscribing
mod Envelopes
mod Emissions
mod Tickets
mod Shutdowns
mod Deliveries
mod ScoredLists
mod KeyedQueues
mod Signing
mod Hooks
mod Alerts
mod WorkQueues
mod QueueRequests
