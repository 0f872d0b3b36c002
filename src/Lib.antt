-- ===== src/Lib.antt =====
-- websocket-engine: a WebSocket server on libuv.
--
-- The program's parts and how they interact. libuv reports connections and bytes to the server, which
-- keeps a `TcpConnection` (include/ws/TcpConnection.h, src/TcpConnection.cpp) for each. That reads into
-- its `Buffer` (include/ws/Buffer.h) and hands it to a `WebSocketConnection`
-- (include/ws/WebSocketConnection.h, src/WebSocketConnection.cpp), which takes HTTP's upgrade request
-- from it, then frames, calls the application back, and sends through the `TcpConnection`.
--
-- Which file models which part:
-- - Base: what the modules share. Base/Fallible has the outcomes of a run, where a failed `assert` is
--   `abort`; Base/Lists has byte arrays, Base/Text header names and tables, Base/Bits the bit masks.
-- - Buffer: every method of `Buffer`, under its name (`ensureSpace` is `ensure_space`), from the
--   record of its fields to the record after it. Buffer/Queue, Space, Numbers, Trim and Trace hold the
--   theorems.
-- - TcpConnection: the fields of `TcpConnection` and its operations; the callbacks that libuv makes are
--   functions with what it reports as arguments (`on_uv_read` is `uv_read`, the completion of
--   `writeToUv` is `write_done`). TcpConnection/State has each operation in each state, Stream the
--   invariant, Reach the histories, Closing how a connection ends.
-- - WebSocketConnection/Types: the fields of `WebSocketConnection`; Send: `writeHeader` to `close`;
--   Decode: `decode`, cut at its early returns (`read_header`, `read_payload`) and at the cases of its
--   `switch` (`continuation`, `message_frame`, `close_frame`, `ping_frame`, `pong_frame`); Handshake:
--   `onHeaderComplete` and `parse`; HttpMethod: the methods that the HTTP parser reports
--   (include/http_parser/http_parser.h); Requests: what an application may ask, any number of times.
--   Layout and Outgoing have what is sent, Header and its children the layout of headers, Masking and
--   Payload unmasking, Frames whole frames, Pieces frames in two reads, Messages and Fragments messages,
--   Control pings and pongs, Refusals what is refused, Endless what follows a close frame or a ping,
--   Opening the handshake's decision.
--   Progress and its children say how much of the input each part of `decode` takes, Termination when its
--   recursion ends.
-- - TcpConnection/Callbacks: the same connection with the callbacks set on it, whose calls are run; its
--   constructors and setters. Callbacks/Quiet compares its handlers with those of TcpConnection, where a
--   call of a callback is only counted; Callbacks/Keeps has what handlers keep because callbacks do.
--   TcpConnection/Address: `getPeerAddress` and `getLocalAddress`.
-- - TcpServer: include/ws/TcpServer.h and src/TcpServer.cpp: ids, the map of connections, which owns
--   them, and `on_uv_connection`. `finish` is the end of a handler: what the map gave up is destroyed.
-- - WebSocketServer: include/ws/WebSocketServer.h and src/WebSocketServer.cpp: `handleMessage` and
--   `handleConnection`, and each event of libuv as a `step`. WebSocketServer/Isolation and Events say
--   which connections an event touches, Ends how a connection begins and ends.
-- - Echo: main.cpp. Echo/Answer is about one frame in `decode`, Served about one read of the server,
--   Polite about what the callbacks leave alone.
-- - EventLoopThread: include/ws/EventLoopThread.h and src/EventLoopThread.cpp as moves of two threads;
--   EventLoopThread/Start is about every order of moves.
-- - EventLoopThreadPool: the pool's vectors and index, `setThreadNums` and `getNextLoop`; a thread stands
--   for its loop. EventLoopThreadPool/Rounds has how loops are dealt out.
-- - WsString: include/ws/String.h, with the arrays that are allocated counted; WsString/Copies.
-- - Util: include/ws/util.h; Util/Dotted reads the text of an address back.
--
-- State is passed explicitly: an operation takes the record and returns the one after it. The buffer
-- that `decode` and `parse` get by reference is `conn.buf`. The application's callbacks are arguments
-- that take and return the connection; the ghost `events` records their calls. A `WebSocketConnection`
-- and the server share the TCP connection: `handle_message` writes it into the record before `parse`
-- and takes it out behind it, and runs there the callbacks of a close within `parse`. The member `conn_`
-- is a reference that dangles after the first `handleMessage`: what a later use of it comes to is the
-- parameter `conn_reads`.
--
-- Bounds and fuel. Bytes are natural numbers below 256 where a theorem asks for it; what the source
-- cuts to 8, 16, 32 or 64 bits is cut here. The indices of a buffer are natural numbers: the `int`
-- fields do not overflow while less than 2 GiB is buffered. `decode` runs on fuel, one unit for each
-- level of its recursion: WebSocketConnection/Termination is about how much is enough, and when none is;
-- the other theorems on it name the levels that the frames take, and the one on the echo server holds for
-- any fuel but 0. Numbers are printed with fuel for ten digits. The counters of a
-- connection and the ids do not overflow here.
--
-- Not modelled. Callbacks of the application that use other connections than the one that they are
-- called on. libuv, Boost and the system: what libuv is asked is in ghost fields of `TcpConnection`,
-- and what it answers is an argument. The HTTP parser (src/http_parser.c is a copy of another
-- project's): a parameter of `parse`. The memory behind a request of libuv: the model takes the bytes
-- at the time of the call. What runs in a worker's loop at the same time as the main loop. Log lines
-- and libuv's return codes.
pub mod Base
pub mod Buffer
pub mod TcpConnection
pub mod WebSocketConnection
pub mod EventLoopThreadPool
pub mod TcpServer
pub mod WebSocketServer
pub mod EventLoopThread
pub mod Echo
pub mod WsString
pub mod Util
