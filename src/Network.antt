-- ===== src/Network.antt =====
-- The network package: internal/network.
pub mod TransferStates
pub mod Transfers
pub mod PriorityQueue
pub mod Retries
pub mod Outcome
pub mod Sorting
pub mod Dispatcher
pub mod WorkerPool
pub mod Routes
pub mod Confirmations
pub mod Errors
pub mod Connections
pub mod Pings
pub mod Acks
