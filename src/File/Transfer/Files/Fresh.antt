-- ===== src/File/Transfer/Files/Fresh.antt =====
-- `ReceiveFile` of internal/file/transmission.go on a file that is not there yet.
use t_chat.Base.{List, bytes_comparable}
