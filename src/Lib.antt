-- ===== src/Lib.antt =====
-- SpareNode is a file server with its own HTTP stack: a request head is parsed, its body is decoded
-- while it arrives, the router picks a handler, the handlers work on a shared filesystem root, and
-- owners log in with sessions. This library models the parts that carry its state and its
-- protocol logic.
--
-- Session (src/session/session_store.cpp and its header): `Store` is the class's state, a policy and
-- the vector of entries; `create`, `create_session`, `authenticate`, `invalidate` and `size` are its
-- operations. They take what the codec, the clock and the allocator answer as arguments, since
-- those are outside. Each call is one step, though `create_session` takes the mutex once for each of
-- its four rounds: what other calls do between two rounds is left out. Session.Entries has the
-- searches over the vector.
--
-- Http.Body (src/http/request/http_body_decoder.cpp): `Decoder` has the members of the class, `feed`
-- and `finish` are its interface, `metadata` and `copied` its two steps. The loop of `feed` takes the
-- length of the input as fuel, which is enough since every round consumes a byte. Http.Ascii and
-- Http.Parse have the byte classes, limits and errors of the headers that it includes.
--
-- Http.Request (src/http/request/http_request_parser.cpp and src/http/request/detail): Decimal is
-- `std::from_chars`, Authority and Target check the two parts of a target, Lines finds line ends,
-- Fields reads the request line and one field, Head the header section and the head, and Message
-- the whole request, whose body comes from Http.Body. The loops take what is left of the input as
-- fuel. Who owns the bytes of a view is left out. Text.IpAddress
-- (src/foundation/text/numeric_ip_address.cpp) has the numeric addresses of an authority.
--
-- Http.Response and Http.Status (src/http/response/http_response.cpp, src/http/http_status_code.cpp):
-- the validation of a response and its two factories. `decimal_digit_count` runs on twenty rounds,
-- the digits of the largest 64-bit value. The Date value, read from the system clock, is left out.
--
-- Http.Router (src/http/routing/http_router.cpp): the route table as a list, registration, selection
-- and dispatch. What a handler does is a parameter; the responses that the router makes go through
-- Http.Response.
--
-- Network.Ring and Network.Dispatcher (src/network/connection_dispatcher.cpp): `State` has the members
-- that the mutex protects and the admission slots; each definition is one critical section of a
-- submitting thread, a worker, the admission thread or a stop, or a receive of the admission thread, so
-- that the interleavings of the threads are sequences of steps, in Network.Dispatcher.Steps. `promote` takes the lock after it has
-- emptied a slot and is two steps. A wait that goes on and a `std::terminate` are results of their
-- own. Network.Dispatcher.Admission has the admission gate and `create`; what the sockets and the
-- clock answer are arguments.
--
-- Configuration (src/configuration/config_lexer.cpp and config_parser.cpp): Lexer has the cursor of
-- `ConfigLexer` and the trivia, Tokens the tokens and `next`; Syntax has the tokens' types, the errors
-- and the parsed configuration, Parser one definition for each member of `ParserState`. The parser
-- reads the answers of the lexer as a stream, some tokens and then for ever the end of the input or one
-- error; Answers makes that stream out of a lexer. A round of a loop consumes a byte or a token, so
-- that the bytes left are the fuel of the lexer's loops, and one round more than there are tokens to
-- come that of the parser's.
--
-- Application.Coordinator (src/application/filesystem_resource_coordinator.cpp): the registry of
-- claims that file operations hold. An acquisition is `prepare` and `commit`, one for each time it
-- takes the lock, so that the interleavings of threads are sequences of `commit` and `release`. The
-- resolution of paths, their relative components and the sorting algorithm are parameters. Paths
-- compare by their bytes, as on POSIX; flags tell whether memory suffices; identifiers are distinct for as
-- long as fewer than 2 ^ 64 - 1 have been issued.
--
-- Text.Utf8 (src/foundation/text/utf8.cpp): decoding, validation and encoding, with the widths of
-- the source's integers written out. The loop of `is_valid` runs on the length of the input.
--
-- Base has the numbers, lists, byte strings and results that all parts share; Tests has concrete
-- runs. A byte string is the list of its unsigned bytes, and a `std::size_t` is a natural number
-- whose wrap-around is written out where the source does not exclude it.
--
-- Not modelled: the response writer and the connection transport, the loader and the validator of
-- the configuration, the API handlers and their JSON, the filesystem and storage back
-- ends, password authentication, sockets and polling, logging, and the programs that wire them.
pub mod Application
pub mod Base
pub mod Configuration
pub mod Http
pub mod Network
pub mod Session
pub mod Tests
pub mod Text
