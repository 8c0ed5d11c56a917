-- ===== src/Lib.antt =====
-- t-chat is a peer-to-peer chat program in Go. The parts that are modelled here are its message
-- store, its friend list, the transfer of files in chunks, the manager of transfer states, the
-- priority queue of messages, the retries of transfers, the table of redundant routes, the
-- confirmation of a transfer by the user, the dispatch of messages to handlers, the pool of
-- workers, the handling of errors, connections, pings, acks, the store of received files, the
-- encryption of messages, and accounts.
--
-- Chat (internal/chat). Chat.Store is message.go: a store is a record of the map from session ids
-- to messages and of the JSON file, and each method of MessageStore is a function that returns the
-- new store and the error. Chat.Sessions is session.go, whose methods call those of the store.
--
-- Friend (internal/friend). Friend.Roster is list.go, with its sync.RWMutex in the state: a method
-- is a function to Option, which is none when the call waits for a lock that its own goroutine
-- holds. Friend.Status is status.go and Friend.Blacklist is blacklist.go.
--
-- File (internal/file). File.Disk is the reading and writing of a file at an offset. File.Chunks
-- is chunk.go, File.Receiver is receiver.go, File.Window is window.go, File.Session is session.go
-- with the counter of progress.go, and File.Protocol is protocol.go. File.Transfer is
-- transfer_helpers.go with the functions of transmission.go that it calls: the sending loop
-- (File.Transfer.Sending) reads chunks from the manager of File.Chunks, puts them into the window
-- of File.Window and sets the state of the session; the receiving loop (File.Transfer.Receiving)
-- hands chunks to the receiver and answers each with an ack. File.Transfer.Files is ReceiveFile of
-- transmission.go, for a new file and for one of which a part is there, with what the file system
-- does as a record (Place); File.Transfer.Offers is SendFile and the table of sessions.
--
-- Network (internal/network). Network.TransferStates is the enumeration of
-- user_confirmation_handler.go with the table of transitions, and Network.Transfers is
-- transfer_state_manager.go. Network.PriorityQueue is priority_queue.go over container/heap, which
-- is a record of functions (Heap) with the laws of its documentation (HeapLaws); the methods Push,
-- Pop and Swap that the code gives to container/heap are in this record, not modelled.
-- Network.Retries is retry_manager.go; the delay of an attempt, which it computes with floats, is
-- a function of the configuration. Network.Routes is route_redundancy.go: the route objects, which
-- the code shares, lie in a list, their addresses in the maps and paths. Network.Sorting is
-- sort.Slice: a record of a function (Sorter) with the laws of its documentation (SorterLaws).
-- Network.Confirmations is the rest of user_confirmation_handler.go: what the methods do to the
-- map of requests and their channels is a function to Outcome, which tells a return from a panic
-- and from waiting for ever, and the goroutines are the step relation of
-- Network.Confirmations.System, in which any of them may move. Network.Dispatcher is
-- dispatcher.go: a handler is a record of what its methods return, and choose_handler is the part
-- of DispatchMessage that finds the handler to call. Network.WorkerPool is worker_pool.go, with
-- its goroutines as counts of those that are at the same place.
--
-- Network.Errors is error_handler.go: the classes of errors with the search for keywords, and in
-- Network.Errors.Handling the records of errors and RetryWithPolicy. Network.Connections is
-- connection_manager.go: the wrappers lie in a list, the map holds their addresses, and the
-- goroutines are the step relation of Network.Connections.Steps. Network.Pings is ping_manager.go
-- in the same way. Network.Acks is ack_handler.go and nack_handler.go. File.Manager is
-- internal/file/manager.go, with the sessions and the assembly of chunks in File.Manager.Chunks.
-- Chat.Encryption is encryption_types.go, encryption_utils.go and encrypt.go of internal/chat, and
-- Chat.Encryption.Manager is manager.go.
--
-- Account is internal/account: account.go with the cipher of crypto.go in Account.Xor, the storage
-- and the manager in Account.Managers, and encrypt.go in Account.Sealed.
--
-- Base holds Go maps as association lists, lists, tests and lemmas. An association list stands for
-- a map together with the order in which range visits it. Examples applies the theorems to
-- concrete data.
--
-- What the code gets from outside is an argument: SHA-256 is a function on byte strings, JSON a
-- record of functions (Json), the clock a number, a write to disk a value or a Boolean, a
-- connection the list of what its reads return, whole messages, and of how its writes end; a read
-- behind the last of them fails, so a loop that waits for acks ends with the list, and a float64
-- an element of a type with operations (Floats, Float64). Machine integers are taken not to
-- overflow, and sizes and indices not to be negative.
--
-- Loops that are not over a list run on fuel. SplitFile gets one round more than the file has
-- bytes, SaveToFile one more than the map has entries, and the sending loop one more than there
-- are chunks left; that this is enough is part of the theorems about them. SaveFile looks for a
-- name with two rounds more than there are files, and writes with one more than there are bytes.
-- The receiving loop and the waiting for acks are recursions on the number of chunks and on the
-- list of reads.
--
-- Not modelled: the Pinecone router (internal/pinecone, a copy of another project), the terminal
-- interface (cmd, internal/cli), logging, configuration, the services that start goroutines and
-- talk to the router (internal/network, but for the parts above), goroutines that run at the same
-- time outside Network.Confirmations, Network.WorkerPool, Network.Connections and Network.Pings,
-- paths, printed progress, the sizes of read buffers, and the close of files.
pub mod Account
pub mod Base
pub mod Chat
pub mod Examples
pub mod File
pub mod Friend
pub mod Network
