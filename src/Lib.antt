-- ===== src/Lib.antt =====
-- MiniDistributedStorage: a client sends a file in blocks to a coordinator (ReactorService), which
-- checks each block against the digest announced for it and sends it on to one of three storage
-- servers (storageServer/saveFile_0, _1, _2); for a download the coordinator asks the storage servers
-- for their blocks and sends them to the client. All messages are length-prefixed and go through the
-- `Buffer` of a connection.
--
-- The files:
--   Base         lists, byte strings, 64-bit words, slices of a vector, and loops on fuel
--   Buffer       `Reactor::Buffer` (ReactorService/inc/Buffer.h, src/Buffer.cc): a vector and two
--                `size_t` indices. Buffer.Valid has the invariant, Buffer.Contents what each method
--                does to the readable bytes, Buffer.Queue the queue of bytes that it implements
--   Wire         32-bit numbers in network order, and the parts of a message (Wire.Frame), and messages
--                that come in pieces (Wire.Pieces)
--   Md5          digest strings (ReactorService/src/md5.h); OpenSSL's MD5 is the parameter `Digest`,
--                of which only is assumed that it gives sixteen bytes
--   Decimal      `std::to_string` and `atoi`
--   FileValue    `Md::FileValue` (ReactorService/inc/Fileproxy.h): blocks, digests and flags of a file
--   Fileproxy    `Md::Fileproxy` of the same header: the files by name
--   Upload       ReactorService/src/upLoad.h: initFileNumber, initFileMD5, sendBlock; Upload.Blocks
--                puts the client's messages and these handlers together
--   Download     ReactorService/src/downLoad.h: one thread of a download (Download.Pieces), and several on
--                their common buffer (Download.Race)
--   Coordinator  ReactorService/src/main.cc: switchOperate, onConnection, onMessage; a whole upload
--                in any pieces (Coordinator.Pieces, Coordinator.Whole), and one that stops
--                because two messages come in one read (Coordinator.Stalled)
--   Storage      storageServer/saveFile_0/src: upLoad.h, downLoad.h, main.cc; and onMessage of
--                saveFile_1 and saveFile_2
--   Client       ClientSystem/File.h and BlockFile.h: the blocks of a file (Client.Tiles), the flags of
--                the uploaded ones (Client.Ids), their numbers and sizes (Client.Numbered), and the
--                messages of an upload
--   Conversation ClientSystem/upLoad.h and test.cc: what the client sends and reads in an upload
--   Receiver     ClientSystem/downLoad.h and main.cc: a download by the client, and the choice of the
--                operation
--   Connection   ReactorService/src/TcpConnection.cc: the output of a connection
--   Loop         ReactorService/src/Loop.cc: the list of functors and the wakeups of a loop
--   EPoller      ReactorService/src/EPoller.cc and inc/EpollEvent.h: the registration of one event
--   EventLoop    ReactorService/src/Loop.cc, EPoller.cc and EpollEvent.cc: the events that are ready,
--                their callbacks, and the end of a loop
--   ThreadPool   ReactorService/src/ThreadPool.cc: the start of the threads, and the choice of a loop
--   LoopThread   ReactorService/src/LoopThread.cc: two threads at the start of a loop, step by step
--   TcpServer    ReactorService/src/TcpServer.cc: the connections of a server, from acceptance to
--                destruction, with the functors that the threads put into each other's loops
--   StorageTable storageServer/saveFile_0/inc/Fileproxy.h: the storage servers' table of files, which
--                differs from the coordinator's
--   Database     db/mysql_operation.h: `DBhelper`, with MySQL as the parameter `query`
--   DbTool       db/db_operation.cpp: the procedural access to the tables, and its `main`
--   Transfer     blocks and whole uploads on their way to the disk; a storage server's part of a
--                download (Transfer.Returned), also of what was uploaded (Transfer.RoundTrip); a
--                second upload (Transfer.Again); and the requests that come after an upload on the
--                one connection of the coordinator (Transfer.Refused)
--   Fixtures     values for the witnesses, which stand in the modules named Tests
--
-- The globals of a program are the fields of one record, and a handler maps that record and the
-- input buffer to the new ones. What a handler sends is appended to a list in the record. `none` and
-- `fault` stand for an access outside a vector, a null pointer, or an exception that nothing catches.
-- `while` loops run on fuel, one more than the number of readable bytes; each round that goes on takes
-- at least four bytes off the buffer, so that this is enough from a valid buffer.
--
-- Of what is not under the repository's own code nothing is assumed but this: a digest has sixteen
-- bytes; `query` maps a statement and a state of MySQL to rows, or to a failure, and a state.
--
-- Not modelled: how threads interleave inside a handler, so that each handler runs alone and the
-- order of messages is given from outside (`LoopThread` and `TcpServer` are relations between steps
-- in any order, and `Download.Race` merges the calls of threads); an event for which `handleClose` is called twice; sockets; what statements mean to MySQL;
-- db/mysql_operation_copy.h, an older copy that does not compile; failures of `open` and `mkdir`,
-- and of `send` but for `TcpConnection`; log output. The Go and TypeScript rewrites are other
-- programs.
pub mod Base
pub mod Buffer
pub mod Wire
pub mod Md5
pub mod Decimal
pub mod FileValue
pub mod Fileproxy
pub mod Upload
pub mod Storage
pub mod Coordinator
pub mod Download
pub mod Transfer
pub mod Fixtures
pub mod Client
pub mod Connection
pub mod ThreadPool
pub mod EPoller
pub mod Loop
pub mod Database
pub mod DbTool
pub mod StorageTable
pub mod Conversation
pub mod Receiver
pub mod LoopThread
pub mod TcpServer
pub mod EventLoop
