-- ===== src/Lib.antt =====
-- shadyurl: a web server that replaces URLs by suspicious-looking ones, and redirects from these to
-- the original. A connection (include/session.hpp) reads requests and hands each to
-- `handle_request` (include/request.hpp), which checks the target, picks a handler from a table of
-- regular expressions, and sends one response through the connection's queue. `handle_post` reads a
-- URL out of a form (src/parseqs.cpp, src/multipart_wrapper.cpp), draws a token (src/generate.cpp) and
-- stores the row with SQLite; `handle_get_url` looks the token up and redirects; the other handlers
-- serve templates and files (src/path.cpp, src/mime.cpp), all with the configuration of
-- src/server_state.cpp.
--
-- Files:
--   Common      shared names: byte strings as lists of numbers with the operations of std::string,
--               maps as association lists, results of calls that may throw
--   Boost       Boost.StringAlgo as a parameter: its documented laws, and what follows from them
--   ParseQs     src/parseqs.cpp: unquote, split_by_eq, parse_qsl
--   Generate    src/generate.cpp: generate_randstr, generate_random_filename, and the word lists
--   Regex       the part of std::regex that the routing table uses, and its language
--   Routes      the guard and the routing table of handle_request in include/request.hpp
--   Mime        src/mime.cpp: MimeTypeMap
--   PathUtil    src/path.cpp: path_cat, get_mime_type
--   Multipart   src/multipart_wrapper.cpp: parse_header_value and the parser's callbacks
--   ServerState src/server_state.cpp: the getters with their defaults
--   Http        the requests and responses, and the response builders of include/request.hpp
--   Sqlite      the calls of SQLite as a parameter
--   Handlers    the handlers of include/request.hpp and handle_request
--   Session     http_session and its queue, include/session.hpp
--   Network     src/session.cpp: a connection from acceptance on, and the listener
--   Stream      the same with the calls on the stream: deadlines, what is outstanding, the log
--   SqliteHelper include/sqlite_helper.hpp, and the handlers' calls of SQLite in their order
--   Store       the table `urls` as a map from tokens to URLs, and what handle_request does to it
--   Server      the connections and handle_request together, over one database
--   Concurrent  calls of handle_request on several threads, each cut at its sqlite3_step, with the
--               locks that they meet
--   Daemonise   src/daemon.cpp: daemonise
--   Daemon      src/daemon.cpp: drop_privs, check_pid, write_pid, set_rlimit
--   PidFile     the text of the PID file, as src/daemon.cpp writes and reads it
--   Startup     src/main.cpp up to the I/O service, src/certificate.cpp
--   Shutdown    src/main.cpp behind it: the threads, the signals, remove_pid and the joins
--   Log         src/log.cpp: set_log_level, fail
--   Tests       runs at concrete inputs
--
-- A `char` is its byte value. A `std::string_view` that is read past its end, or passed on by
-- `data()`, is taken to be a view to the end of a `std::string`, as in every call of the program.
-- A text that crosses a C interface by `c_str()` is cut at its first NUL.
--
-- Fuel: the loop of `generate_randstr` has sixteen rounds, which are enough since its bound is at most
-- 15; the digits of a number are written with one more round than the number.
--
-- Parameters, for code that is not in the repository: Boost.StringAlgo, the draws of the random
-- numbers, SQLite, the file system, inja, multipart_parser_c, toml++, the
-- system calls of src/daemon.cpp, and `need_eof()` of Boost.Beast.
--
-- Server takes one request at a time, so that no call meets a lock of the database there; what locks do
-- to a call is in Concurrent.
--
-- Not modelled: the calls of syslog but for those of `fail` on a connection, and the clock: a deadline
-- that passes comes as an error of the operation.
pub mod Common
pub mod Boost
pub mod ParseQs
pub mod Generate
pub mod Regex
pub mod Routes
pub mod Mime
pub mod PathUtil
pub mod Multipart
pub mod ServerState
pub mod Http
pub mod Sqlite
pub mod Handlers
pub mod Session
pub mod SqliteHelper
pub mod Store
pub mod Network
pub mod Stream
pub mod Server
pub mod Concurrent
pub mod PidFile
pub mod Daemon
pub mod Startup
pub mod Shutdown
pub mod Daemonise
pub mod Log
pub mod Tests
