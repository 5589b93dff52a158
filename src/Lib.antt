-- ===== src/Lib.antt =====
-- Verification of the xx_chat server (https://github.com/AnonymousRookie/xx_chat).
--
-- xx_chat is a chat service of four server processes that talk to each other and to clients over TCP.
-- A client asks the login server for the address of a message server, connects to it and logs in.
-- The message server has the login checked by the database proxy, and passes the messages of clients
-- to it; the proxy works on them in a pool of threads and answers, and the message server forwards
-- the answers to the connections of the users. Each process keeps connections (ImConn) that cut the
-- byte stream into messages (ImPdu); each message is a header of 16 bytes and a protobuf body.
--
-- The modules and the code they model, below xx_chat_server/src:
--   Base: the names that all modules share: tests on numbers, lists, std::map as an association list,
--     and code that may stop, as Option.
--   Pdu: base/util_pdu (SimpleBuffer, the words of ByteStream, ByteStream, PduException) and
--     base/im_pdu_base (ImPdu). A pointer into memory is a block of bytes and an offset; an exception
--     is a `throw`. SimpleBuffer::Write is `SimpleBuffer.write`, ByteStream::operator<< is `put_uint8`,
--     `put_uint16` and `put_uint32`, ImPdu::ReadPdu is `read_pdu`, ImPdu::SetPBMsg is `set_pb_msg`.
--   Conn: base/im_conn, ImConn::Send (`send`), OnWrite (`on_write`), OnRead (`on_read`) and
--     ImConnCallback (in Conn.Callback). What the kernel answers is a list of answers, and what it
--     delivers a list of chunks. HandlePdu is a parameter.
--   Net: net/buffer and net/z_endian.h (Buffer), net/channel (Channel) and net/tcp_connection
--     (TcpConnection, in Net.Tcp), net/event_loop (EventLoop, in Net.Loop) and
--     net/event_loop_thread_pool, net/connector and acceptor (in Net.Connector), net/poller_epoll (in
--     Net.Poller), net/tcp_server and tcp_client (in Net.Server). `none` is a failed assert. What a
--     function has called or queued in the event loop is a list of effects; Net.Tcp.Machine has all
--     calls and events as steps.
--   Sockets: base/base_socket (BaseSocket and its table), the calls of base/net_lib on a handle, and
--     base/event_dispatch (EventDispatch): its timers and its epoll loop.
--   Strings: base/string_util.h and Strtok of base/utils.h.
--   Login: login_server/login_conn (LoginConn): its connections, the table of message servers and the
--     total of online users.
--   Http: login_server/http_conn (HttpConn) and base/http_parser_wrapper (CHttpParserWrapper, in
--     Http.Parser), and login_server/login_server (LoginServer, in Http.Server).
--   Servers: base/serv_info.h (`serv_init`, `serv_check_reconnect`, `serv_reset`) and the functions of
--     msg_server/db_server_conn.cpp, login_server_conn.cpp and route_server_conn.cpp that go through a
--     list of servers; in Servers.Conns and Servers.RouteConns the connections of the message server to
--     such a server, with the master among those to the route servers.
--   Msg: msg_server/msg_conn, im_user and attach_data, and the handlers of msg_server/db_server_conn.cpp.
--     Objects are in the state by their addresses, so that the use of a deleted one shows.
--   Proxy: db_proxy_server/db_pool (DBPool, in Proxy.Pool) and proxy_conn (ProxyConn, in
--     Proxy.Responses, with OnRead in Proxy.Requests), base/thread and thread_pool (in Proxy.Workers).
--     Threads interleave in any order of whole calls, as these hold a mutex. Proxy.Business and
--     Proxy.Logins are the handlers in db_proxy_server/business.
--   Route: route_server/route_conn and user_info (RouteConn, UserInfo).
--   Client: the client, below xx_chat_client/xx_chat_client/src: core/operation_manager (in
--     Client.Operations), core/http_pool_module (HttpPool), core/event, event_manager and
--     module_subject (Events), core/tcp_client_module with the modules it calls and data_manager
--     (Login), and login/relogin_manager (Relogin).
-- A name of the source in camel case is in snake case here; the final underscore of a member is
-- dropped. A function takes the state it changes and returns the next one, with what it sends.
--
-- Numbers are natural numbers; the wrap-around of uint16_t, uint32_t, uint64_t and size_t is written
-- out, and a signed number is its bit pattern. Memory is never short. The loop of OnRead runs on fuel,
-- one more than the bytes in the buffer, which is enough because each message takes bytes out of it;
-- the loops of Send and OnWrite go by the answers of the kernel, those of strReplace and Strtok run on
-- fuel that is proved to be enough, the event loop on the list of its turns, and all others by a list.
--
-- Parameters, as their code is not in the repository: the parsers and printers of the protobuf
-- messages, the clock, the kernel's answers, the outcome of a connection to the database and
-- the rows that a query gives, the parser http_parser, the JSON writer of rapidjson, and what
-- callbacks do: HandlePdu in Conn, the callbacks of sockets, timers and loops.
--
-- Not modelled: the calls of mysql; the options of sockets, addresses, time stamps and the start of
-- threads in net; logging, configuration and the main functions; the windows of the client,
-- and its base directory, which repeats the server's; and the vendored libraries.
pub mod Base
pub mod Pdu
pub mod Conn
pub mod Net
pub mod Login
pub mod Http
pub mod Servers
pub mod Sockets
pub mod Strings
pub mod Msg
pub mod Proxy
pub mod Route
pub mod Client
