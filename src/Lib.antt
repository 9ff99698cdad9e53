-- ===== src/Lib.antt =====
-- A verification library for the HTTP server of this repository.
--
-- The server reads requests from its connections, finds the route of each, answers it from files,
-- uploads or a CGI program, and sends the response. The parts that are modelled are translated
-- from the C++ sources, one definition for each function, with a helper by clauses where the
-- source has a nested test.
--
--   HttpRequest   src/HTTPRequest.cpp: the incremental parser. `HttpRequest` is the object's
--                 state; `HttpRequest.Line` has the request line and the headers,
--                 `HttpRequest.Chunked` the chunked body, `HttpRequest.Parse` the body by length
--                 and `parse` itself. A parsing function returns its result and the new state.
--   HttpResponse  src/HTTPResponse.cpp: a response, its text and the pages of each status.
--   HttpHandler   src/HTTPHandler.cpp: `Path` has the URI utilities, `Get` GET, DELETE and the
--                 listing of a directory, `Post` uploads and forms, `Cgi` the output of a CGI
--                 program, and `Request` the guards of `handle_request`, which calls the others.
--                 `Files` says what is asked of the system.
--   Client        src/Client.cpp: what is kept of a connection. `Client.Pending` is about the
--                 queues to a CGI program and to the peer, `Client.Cgi` about the descriptors of a
--                 program, `Client.Decoder` has the chunk decoder for a program's input.
--   Server        src/Server.cpp: `match_route`, and below it the event loop. `Server.Covers` says
--                 which targets a path covers, apart from the code. `Server.State` has
--                 inc/Server.hpp and the look-ups, `Start` the constructor and the destructor,
--                 `Remove` connections that come and go, `CgiOutput` and `CgiInput` the two pipes
--                 of a program, `Dispatch` its start, `Read` and `Output` the handlers of a
--                 connection, and `Poll` the handlers of events and the turns of the loop.
--   Cgi           src/CGI.cpp: the environment and the paths of a program, of which `dispatch_cgi`
--                 of the server has a copy.
--   Config        src/Config.cpp: `Lines` has lines and words, `Numbers` the numbers, `Directives`
--                 one function for each directive, `Blocks` the blocks of a server and a location,
--                 `Validate` the checks at the end and `Parse` the whole file.
--   Main          src/main.cpp and src/init.cpp: from the arguments to the start of a server.
--
-- Shared: `Prelude` passes on the names of the libraries and has lists and Boolean tests over the
-- native numbers, `Prelude.Loop` has `while` loops, `Bytes` the operations of <string> and
-- <cctype> that the program uses, `StdMap` std::map. `Tests` has runs at concrete inputs, and the
-- theorems at inputs that meet their conditions.
--
-- Conventions. A text is a list of the codes of its bytes, and a position in it is an option whose
-- `none` is npos. A `size_t` is a number below 2 ^ 64, with its wrap-around written out where a
-- sum can pass that bound; an `int` that is read from a text is the word of 32 bits that holds it.
-- The length of a text is taken to be below 2 ^ 64. A parser object that throws nothing and calls
-- nothing is a value; a function that changes it returns the new one.
--
-- Loops run on fuel that a measure of their state bounds, by `run`: one more than the measure. The
-- measures are twice the length of the buffer and one while the data of a chunk is expected for
-- the two chunk loops, the length of the buffer for the loops over header and trailer lines, what
-- is left of the text for the loop over the headers of a CGI program, the number of lines that are
-- left for the loops of the configuration, and the number of entries that are left for the loop
-- over the timeouts. Each further turn makes the measure smaller, so the fuel is never used up. A
-- loop around `read`, `write`, `send` or `accept` recurses on the answers that are to come.
--
-- The event loop. A state of the server holds what the system answers to its calls, a queue for
-- each call, and a log of the calls that are seen outside; a pointer to a client is its value,
-- which is put back under its descriptor. A handler returns its result, the index and the state.
-- `entry_turn` is one turn of the loop over the entries of `poll_fds_`, with the outcome
-- `undefined` for an index behind its end, and `Poll.Reach` has the steps of the loop as a
-- relation: `poll` returns with any events and any answers, an entry has its turn, the timeouts
-- are checked.
--
-- Parameters. The files of error pages and of the configuration, the answers of stat, access,
-- readdir, open, unlink and realpath, and the output of a CGI program that is run to its end are
-- functions that the definitions take. They are asked by path and do not change during one
-- request; the calls that change files are returned in their order. The answers of socket, bind,
-- listen, accept, read, write, send, pipe and fork are given as above, and the clock stands still
-- between two returns of `poll`. Reading a number from a stream of the configuration is written
-- out: blanks, a sign and digits, with the bounds of the type.
--
-- Undefined behaviour of the configuration parser, where it reads the first of no words, is the
-- outcome `undefined` of a directive or a block, and `undefined_outcome` of the file.
--
-- Not modelled: `execute` of src/CGI.cpp, which runs a program to its end and whose output is a
-- parameter; the signals of the program (src/signals.cpp); the messages on the terminal and the
-- status dump of the event loop; options that are set on descriptors; and the end of the event
-- loop, where `poll` fails.
pub mod Bytes
pub mod Cgi
pub mod Client
pub mod Config
pub mod HttpHandler
pub mod HttpRequest
pub mod HttpResponse
pub mod Main
pub mod Prelude
pub mod Server
pub mod StdMap
pub mod Tests
