-- ===== src/Lib.antt =====
-- Models of cndl, an HTTP and websocket server library.
--
-- The program. `ConnectionHandler` owns a socket: it hands the bytes that come in to the protocol
-- of the connection and writes what the protocol sends, at once or when `EPOLLOUT` tells that the
-- socket takes more. The protocol is `HttpProtocol` first, which parses requests (`Request`), lets
-- the `Dispatcher` find the route that answers and sends the `Response`, and `Websocket` after an
-- upgrade. Errors are exceptions: `Error` with an HTTP status, or those of the standard library.
--
-- The files.
--   Base: lists and Boolean tests over the native numbers, byte strings, integers, the searches of
--     `std::string_view` (Base/View), exceptions as values of `Result` (Base/Throws, Error.h).
--   Websocket (Websocket.h, Websocket.cpp): Types has the opcodes, close codes, the members of the
--     class and the calls that it makes; Frame reads a frame as the first half of `onDataReceived`
--     does; Receive is the rest of `onDataReceived` with its loop; Send is `send`, `ping`,
--     `close`, `setAutoPing` and `onPeerClose`. Wire writes RFC 6455 down on its own: the frames
--     of a client and a reader for those of a server. Stream and Prefix are on the loop and on
--     buffers that grow, Chunks, Frames, Fragments, RoundTrip, Reply and Violations hold the
--     theorems.
--   Connection (ConnectionHandler.cpp): Transmit is `flush_job`, `Pimpl::write` and the branch of
--     `operator()` on `EPOLLOUT`, on a state with the queue, `outBufferSize`, and what the socket
--     took. Flush and Queue are on one job, Fifo and Schedule on the order of all bytes, Progress
--     on the end of a flush and on failures. Protocols is ProtocolHandler.h, the two protocols
--     behind one call; Handler is the whole of `operator()` with the reads, the change of the
--     protocol and `close`. Calls, Sends and Events are on the bytes that whole runs of events
--     send, Follows and Reads on the cutting of a stream into reads, Open, Served and KeepAlive on
--     requests and their responses, Upgraded on the way to a websocket, and Stopped on connections
--     whose protocol has ended.
--   Request (Request.h, Request.cpp): Url is `url_unescape`, Fields is `extractFieldVals` and
--     `parse_fields`, Types the record of a request, Parse is `parse_header`, Multipart is
--     `readMultipartBody`; Reference is unescaping written down on its own, Unescape, Escape,
--     Lines, Headers, RequestLine, Plain and Parts hold the theorems on what is read, Rounds,
--     HeaderRounds and PartRounds those on the ends of the loops.
--   Response (Response.h, Response.cpp): Tables holds the two tables, Fields the multimap of
--     header fields, Decimal `std::to_string`, Types the class with `serialize`, `setCookie` and
--     the content types; Values, Serialize and Received hold the theorems.
--   Base64 (base64.cpp): Codec has both functions, Reference is the encoding of RFC
--     4648 by groups of three bytes, the other files the round trip.
--   Dispatcher (Dispatcher.cpp, Route.h, Extractor.h): Extract takes the arguments of a handler
--     from the submatches, Routes is the dispatcher, Construct the constructor of `Route`,
--     WsRoutes is WSRoute.h; Choice and Answer hold theorems on the dispatcher.
--   Http (HttpProtocol.h, HttpProtocol.cpp): Types has the member and the locals of
--     `onDataReceived` and how it ends, Upgrade is `connection_upgrade`, Protocol is
--     `onDataReceived`. Head, Request and Answer are on single requests, Pipeline on two, Ends,
--     Next, Tried and Rounds on the end of the loop, Endless on the loop that does not end, Asks,
--     Origin, Opened, Safety, Handshake and Opens on the upgrade.
--   Static (StaticFileHandler.h, StaticFileHandler.cpp, DateStrHelper.cpp): Dates are the dates,
--     Files the file system and paths, Range is the range of a request, Handler is the class;
--     Bounds, Answers, Short and Paths are on what is sent.
--   Tests: runs of the definitions, and the theorems at concrete inputs.
--
-- Conventions. A function that may throw returns a `Result`; an access outside a view is the
-- exception `undefined`. `std::size_t` wraps at 2^64, and `int` at 2^32 in base64; the other
-- `int`s (a status code, the bytes that `onDataReceived` consumes, the size behind a score) are
-- taken to fit, and a text of fields is taken to be shorter than 2^32 - 1 bytes, since its
-- positions are `unsigned int`s. The calls that a protocol makes on its handler and its connection
-- are a list of events; what an application writes to the connection when it is called is a
-- function of the call. What the socket answers to `::send` and `::recv` is a list that the
-- environment chooses.
-- `std::unordered_multimap` is the list of its entries in the order in which they were put in. The
-- map leaves the order of entries of one name open, and with it the entry that `find` gives and the
-- order of `equal_range`: for a name that is there more than once the definitions follow one order of
-- those that the map may have. What is read of a map by name is so only where the name is there once,
-- and `occurrences` tells what a map holds without an order.
--
-- Rounds. The loops of `onDataReceived`, `url_unescape`, `extractFieldVals`, `parse_fields` and
-- `readMultipartBody` take as many rounds as the text has bytes, and one more. A round of
-- `onDataReceived` takes six bytes or ends the loop, a round of `url_unescape` three, one of
-- `parse_fields` and of `readMultipartBody` two, and one of `extractFieldVals` one. The loop of
-- `HttpProtocol::onDataReceived` has two rounds more than there are bytes: every round that goes on
-- takes four, but for the first one, which may have its header from an earlier call, and for those
-- on a header that is refused, on which the loop of the code does not end either (`endless`). The
-- model has the exception `stuck`, and an ending of that name, for a loop that has used its rounds
-- up.
--
-- Not modelled: the sockets, epoll and threads (Server.cpp), the registration of routes at the
-- global server, mutexes and move operations, type-erased functions (unique_function.h), the time
-- stamps of the auto ping, handlers that close their connection themselves, and
-- callbacks behind a write that write again while the queue is flushed: they are recorded as
-- called. Regular expressions, the calendar, the file system, `SHA1`, what a string holds after a
-- move, and the handlers of the application are parameters.
pub mod Base
pub mod Websocket
pub mod Connection
pub mod Base64
pub mod Request
pub mod Response
pub mod Dispatcher
pub mod Http
pub mod Static
pub mod Tests
