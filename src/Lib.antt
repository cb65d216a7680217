-- ===== src/Lib.antt =====
-- Halmos is a web server in C: an event loop (src/core/halmos_core_event_loop.c) accepts connections,
-- registers each under its descriptor in the connection table and pushes its events to a task queue,
-- from which worker threads take them to the HTTP/1, HTTP/2, WebSocket and FastCGI code. This library
-- models the parts that carry the server's own logic. The calls of the operating system, of OpenSSL and
-- of malloc enter as arguments of the functions that make them.
--
-- Base.antt: lists, tests, C strings, signed integers, `strtol` and byte masks that the parts share.
--
-- Reader.antt: what the receivers of src/protocol/websocket/halmos_ws_system.c and
-- src/protocol/http2/halmos_http2_manager.c share. A Reader is a state, the bytes it asks for, and what
-- it does with those that a read returned; its law is that a read of several bytes does what reads of one
-- byte each do. The sizes of the reads are an argument, 0 for EAGAIN; `reads` counts those that return
-- something. Both receivers fill this interface.
--
-- Util.antt: src/protocol/halmos_http_utils.c, with Util/Url.antt, Util/Trim.antt and Util/Mime.antt. The
-- binary search runs on fuel 8, the size of its table, of which each pass takes at least one entry away.
--
-- Route.antt: http_route_match and http_route_apply_logic of src/protocol/halmos_http_route.c;
-- Route/Longest.antt says which route is chosen.
--
-- Fcgi.antt: the records of src/fastcgi/halmos_fcgi_proto.c as bytes. Fcgi/Pairs.antt and Fcgi/Stdin.antt
-- hold readers written from the FastCGI specification, against which the writers are compared. The loop
-- of fcgi_proto_send_stdin runs on fuel, the length of the data, since each pass sends a byte or more.
-- safe_send_all is taken to send everything. Fcgi/Pool.antt is src/fastcgi/halmos_fcgi_pool.c, each call
-- one step; Fcgi/Pool/Exclusive.antt follows any sequence of calls, with a count of the requests that hold
-- each descriptor. A descriptor that the system gives is assumed not to be open: it is in no slot and with no
-- request at that moment.
--
-- Conn.antt: src/core/halmos_core_conn_table.c. The array of slots is a list, a descriptor an integer.
-- The functions keep their names (core_conn_t_activate, core_conn_t_deactivate, core_conn_t_is_valid and
-- so on). Sessions and destructors are names, and `destroyed` is the record of the destructor's calls.
-- Conn/Generation.antt is about stale events, Conn/Sessions.antt about the sessions' lives.
--
-- Queue.antt: src/core/halmos_core_queue.c and `mark_worker_idle` of src/core/halmos_core_thread_pool.c.
-- The critical sections of core_queue_push, core_queue_pop and core_queue_thread_worker_stop are one
-- function each; Queue/Pool.antt interleaves them in a step relation, in which a slot may be given back,
-- the scaling flag cleared at any time, and the queue drained at any time after the stop began, a superset
-- of what the threads do. Queue/Laws.antt has its invariant, Queue/Stop.antt the end of the stop.
--
-- Adaptive.antt: core_adaptive_init of src/core/halmos_core_adaptive.c, from what the system calls and the
-- configuration say to the sizes; Adaptive/Bounds.antt has their limits. In this file and in
-- fcgi_proto_add_pair a sum of `int`s that overflows, which C leaves undefined, is taken to wrap around.
--
-- Traffic.antt: the rate limiter of src/security/halmos_sec_traffic.c, with the clock as an argument.
-- The loop counts the rounds left, from the size of the table on, as the source does. Traffic/Limit.antt
-- follows one entry, Traffic/Run.antt a run of requests.
--
-- Hpack.antt: src/protocol/http2/halmos_http2_hpack.c. Hpack/Integer.antt has the integers,
-- Hpack/Static.antt and Hpack/Table.antt the tables (http2_hpack_get_header,
-- http2_hpack_dynamic_table_add), Hpack/Text.antt the string literals, Hpack/Fields.antt what a field
-- does to the request, and Hpack/Block.antt the loop of parse_header in
-- src/protocol/http2/halmos_http2_parser.c. The loop runs on fuel, as much as the payload has bytes,
-- which is enough since each round takes a byte. The Huffman table, copied from nghttp2, is a parameter,
-- and so is the configuration's trust_proxy.
--
-- Http2.antt: frames (src/protocol/http2/halmos_http2_frame.c and http2_parser_frame_header).
-- Http2/Streams.antt is the hash table of src/protocol/http2/halmos_http2_stream.c, with
-- Http2/Streams/Lookup.antt; Http2/Payload.antt the payloads of HEADERS and DATA frames of
-- src/protocol/http2/halmos_http2_parser.c, with Http2/Payload/Padding.antt and
-- Http2/Payload/Body.antt, and the window updates applied, with
-- Http2/Payload/Window.antt. The router behind a finished request is an effect, not modelled.
-- Http2/Manager.antt is the reading half of http2_manager_session in
-- src/protocol/http2/halmos_http2_manager.c: Http2/Manager/Fill.antt shows that it is a Reader,
-- Http2/Manager/Frames.antt follows whole frames. Http2/Control.antt and
-- Http2/Control/Effects.antt are the frames that dispatch_frame handles itself. Http2/Socket.antt is the write backlog of
-- src/protocol/http2/halmos_http2_socket.c, with Http2/Socket/Order.antt for single calls and
-- Http2/Socket/Drain.antt for runs of them; what the socket takes is an argument of each call.
--
-- Ws.antt: WebSocket frames, built by src/protocol/websocket/halmos_ws_registry.c and opened by
-- handle_websocket_data_payload of src/protocol/http2/halmos_http2_parser.c. A frame whose length makes
-- the offset wrap around 2^64 is taken as far as its bytes go, where the source would read on.
-- Ws/Receiver.antt is halmos_ws_recv_frame and ws_system_dispatch of
-- src/protocol/websocket/halmos_ws_system.c: Ws/Receiver/Fill.antt shows that it is a Reader,
-- Ws/Receiver/Stream.antt has the passes of its loop, Ws/Receiver/Whole.antt streams of frames and
-- Ws/Receiver/Guards.antt what it refuses. The commands inside a text message are not modelled.
--
-- Ws/Registry.antt is src/protocol/websocket/halmos_ws_registry.c. Its state has the clients by address, so
-- that a freed one is missing; a look at a missing client sets `faulted`. The buckets of topics and names are
-- functions of the hash. Ws/Registry/Valid.antt has the invariant, Ws/Registry/Counts.antt how often an address
-- stands in a list, Ws/Registry/Steps.antt and Ws/Registry/Safety.antt what each call keeps,
-- Ws/Registry/Runs.antt sequences of calls, and Ws/Registry/Identity.antt what a look-up finds behind them.
--
-- Http2/Response.antt is the headers and bodies of src/protocol/http2/halmos_http2_response.c. Its decimal
-- digits run on fuel 10, those of an `int`, its groups of a length on fuel 10, those of 64 bits, and the frames
-- of a body on its length, since each frame takes a byte or more. Http2/Response/Block.antt reads single
-- fields back with the string decoder of Hpack/Text.antt, Http2/Response/Fields.antt whole headers, and
-- Http2/Response/Body.antt has the bodies. Http2/Flush.antt is a turn of
-- http2_response_flush_active_streams for a static file; Http2/Flush/Turn.antt has the kinds of turns,
-- Http2/Flush/Order.antt their order. `pread` is a function, of which only what POSIX says is assumed.
--
-- Tests.antt and the files under Tests are concrete runs.
--
-- Not modelled: sockets, files, TLS and logging (I/O); the janitor thread and socket options of the rate
-- limiter; HTTP/1, multipart bodies, the files of routes, virtual hosts, the WebSocket IPC and sending
-- side, ws_registry_destroy;
-- fcgi_pool_destroy, the FastCGI parameters, sessions and answers; the HTTP/2 routing, the choice
-- of the active streams; sanitize_path; the configuration files.
pub mod Base
pub mod Reader
pub mod Util
pub mod Route
pub mod Fcgi
pub mod Conn
pub mod Queue
pub mod Adaptive
pub mod Traffic
pub mod Hpack
pub mod Http2
pub mod Ws
pub mod Tests
