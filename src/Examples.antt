-- ===== src/Examples.antt =====
-- Concrete runs, to which the theorems about each package are applied.
mod Acks
mod Chat
mod Friend
mod File
mod Transfer
mod Network
mod Retry
mod Sorting
mod Routes
mod Workers
mod Manager
mod Errors
mod Connections
mod Pings
mod Encryption
mod Dispatcher
mod Files
mod Confirmations
mod Account
