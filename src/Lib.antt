-- ===== src/Lib.antt =====
-- Verification of winterfell, a non-blocking reactor library for TCP and HTTP servers.
--
-- The program. An event loop (winterfell/net/wf_event_loop.*) polls descriptors and calls the
-- callbacks of their channels. A TCP connection reads into an input buffer and hands it to a message
-- callback; the HTTP server's callback parses requests out of that buffer (HttpContext), lets the
-- user fill in a response (HttpResponse), and sends what the response appends to a buffer.
--
-- Which file models which part:
--   Prelude           shared names: tests and lists on the native numbers, slices of lists, byte
--                     strings, runs that may fail an assert, functions changed at a place,
--                     integers
--   Buffer            winterfell/net/wf_buffer.h and .cc: the class Buffer (append, retrieve, prepend,
--                     readFd, makeSpace as append, retrieve, prepend, read_fd, make_space); the
--                     vector is a list of bytes. Buffer/Content: what each operation does to the
--                     readable bytes; Buffer/Queue: whole sequences of calls; Buffer/Growth: the
--                     storage taken; Buffer/Search: findCRLF
--   Base/Timestamp    winterfell/base/wf_timestamp.h and .cc. Text: the printed forms, gmtime_r being a
--                     parameter
--   Base/Log          winterfell/base/wf_log.h and .cc. Lines: what a statement prints
--   Base/Thread       winterfell/base/wf_thread.h and .cc. Lifetime: from start to destructor
--   Base/Mutex        winterfell/base/wf_mutex.h: statements of many threads as steps. Holders: who has
--                     the lock
--   Base/Rate         winterfell/base/wf_rate.h and .cc: the token bucket; the type double is a
--                     parameter. Base/Rate/Bucket: its behaviour over time
--   Net/Channel       winterfell/net/wf_channel.h and .cc; Net/Channel/Masks: the setters of the mask
--   Net/TcpConnection winterfell/net/wf_tcp_connection.h and .cc: each method returns the effects that
--                     it asks for. Output: where the bytes go; History: any sequence of events;
--                     Flush, Wire: what handleWrite takes and sends; Closing: shutting down
--   Net/Socket        winterfell/net/wf_socket.h and .cc, winterfell/net/wf_sockets_ops.cc
--   Net/Endpoint      winterfell/net/wf_endpoint.h and .cc. Ports: addresses and ports told
--   Net/Acceptor      winterfell/net/wf_acceptor.h and .cc. Ownership: of accepted descriptors
--   Net/TcpServer     winterfell/net/wf_tcp_server.h and .cc. Names: of the connections; Registry: the
--                     connections kept; World: the server with its connections, one event at a time,
--                     and its destructor, against the lives that are meant
--   Net/PollPoller    winterfell/net/wf_poller.h and .cc, winterfell/net/poller/wf_poll_poller.h and .cc.
--                     Tables, Consistent, Additions, Entries: the array, the map and the places in agreement;
--                     Updates, Removals, SwitchedOff: what updateChannel and removeChannel do to them
--   Net/TimerQueue    winterfell/net/wf_timer.h and .cc, winterfell/net/wf_timer_queue.h and .cc. Order:
--                     what runs when; Arming: when the descriptor fires next
--   Net/Connector     winterfell/net/wf_connector.h and .cc. Safety: which calls are safe in which
--                     state; Attempts: the delays of the retries
--   Net/EventLoop     winterfell/net/wf_event_loop.h and .cc: the queue of functors as steps of the
--                     threads. Wakeups: the order of the functors, and the eventfd; Turn: a turn of
--                     the loop; Owner: one loop for each thread; Services: its timers and
--                     channels
--   Net/SubLoops      winterfell/net/wf_sub_loops.h and .cc. Turns: which loop is handed out when
--   Net/TcpClient     winterfell/net/wf_tcp_client.h and .cc. Lifetimes: the connections
--                     that come and go
--   Http/StringMap    what the HTTP layer uses of std::map<string, string>
--   Http/Request      winterfell/net/http/wf_http_request.h
--   Http/Context      winterfell/net/http/wf_http_context.h and .cc: parseRequest as a loop over
--                     rounds, one for each turn of `while (hasMore)`. Its children: the same parser on
--                     a plain byte string (Lines), its end (Progress), input in pieces (Chunks),
--                     refused lines (Refused), reading back what was written (RoundTrip)
--   Http/Response     winterfell/net/http/wf_http_response.h and .cc
--   Http/Server       winterfell/net/http/wf_http_server.h and .cc: onMessage and onRequest return the
--                     calls that they make on the connection. Answer: to a request; Pieces: to one
--                     that arrives in pieces
--   Util/Any          winterfell/util/wf_any.h, on an explicit heap. Values: what the objects hold and own;
--                     Meaning: the operations on values; Steps, Made, Assigned: each operation; Refine:
--                     sequences of them
--   Example/Ftp       example/ftp/ftp_server.cc: the HTTP callback of the file server. Ranges, Listing: what
--                     it answers
--   Example/Echo      example/echo/server.cc: its callbacks on a connection. Line: what is meant;
--                     Returned: what comes back
--   Example/EchoRate  example/echo_rate/server.cc: the message callback with its limiter. Same: it answers as
--                     the plain one does
--   Tests             concrete runs
--
-- Bounds and fuel. A failed assert, or the use of a null pointer, is the outcome `aborted`; a loop
-- that runs out of its rounds is `looping`. `parse_request` runs with one round more than there are
-- readable bytes. Indices and lengths are natural numbers: no caller passes a negative one. Times
-- are unbounded integers. A mask of events that the setters made is below 8.
--
-- Not modelled: the system calls themselves (what they return is an argument), what polling finds
-- ready, the condition variable, and the examples but the file server and the echo servers. The
-- user's HTTP callback is a parameter, a function from a request and a response to the response.
pub mod Prelude
pub mod Buffer
pub mod Base
pub mod Example
pub mod Http
pub mod Net
pub mod Util
mod Tests
