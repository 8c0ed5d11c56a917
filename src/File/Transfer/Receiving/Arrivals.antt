-- ===== src/File/Transfer/Receiving/Arrivals.antt =====
-- A file that arrives through `ReceiveChunksWithAck` of internal/file/transfer_helpers.go.
use t_chat.Base.{List}
use t_chat.File.Receiver.{Receiver}
