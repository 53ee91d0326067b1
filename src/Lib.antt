-- ===== src/Lib.antt =====
-- Ervan 2, an SMTP server in C++20: the parsers, the line assembly, the message file, the SMTP
-- session, the configuration and the two processes, translated definition by definition, with their
-- theorems.
--
-- Base: numbers below a bound as tests, and byte strings. A `char` is its byte, a `span` the list
--   of its bytes, a `size_t` a number whose wrap-around is written out where the source can reach it.
-- Parse: common/src/parse.cpp and common/include/ervan/parse.hpp. Each parser takes the bytes of its
--   span and gives an `Outcome`: a result, malformed, an overrun (the source goes on over memory
--   behind the span) and exhausted fuel. Parse/Grammar has SMTP's texts, apart from the parsers,
--   and below it, in Parse/Accepted and in Parse/Shapes stands what is accepted in their terms. The loops of `a_d_l` and `local_part`
--   run on fuel, one more than the bytes there are; each round takes one.
-- Strings: common/src/string.cpp. Strings/Join is `join` on a buffer split into the part that holds
--   the line and the bytes compared with the terminator; Strings/Base64 is the encoder; Strings/Look
--   is `look`, which only a test calls; Strings/Unique the names of files; Strings/Span is `span`
--   itself, over a memory, with what makes it the list of its bytes.
-- Config: common/include/ervan/config.hpp, its entries and the setting of one by its key; Config/Values
--   is `get`, `ensure`, `dump` and `set` with an id; Config/Layout how an object lies in memory, which
--   is a parameter with the law that an object is read back; Config/Sync the exchange between the two
--   processes (`handle_eipc` of main/src/main.cpp and smtp/src/main.cpp), as the messages in order;
--   Config/File is `get_config_pair` of common/src/string.cpp and the loop of `reload_config` in
--   main/src/main.cpp, on fuel, one more than the bytes of the file; each pair takes at least one.
--   Config/File/Settings has the lines of such a file as values.
-- Common: Platform is what the program takes from the operating system and from the library eaio,
--   all of it parameters: files, the clock, unique names; Platform/Regular has the laws of a file
--   that takes every write. Tar is common/include/ervan/io.hpp, Writer common/src/rfc5322.cpp,
--   Metadata common/src/message.cpp, Log common/include/ervan/log.hpp, and Syncs common/src/io.cpp,
--   a relation of steps over the requests, the coroutines that wait and the pending signal.
-- Smtp: the session. Replies is smtp/include/ervan/smtp/types.hpp; Session the state of
--   smtp/include/ervan/smtp/session.hpp, with `reset` and the constructor; Commands the handlers of
--   smtp/src/session/commands.cpp; Dispatch `call_command` and its table; Files
--   smtp/src/session/file.cpp; Feed the loops of smtp/src/session.cpp over the bytes that arrive, and
--   Valid the invariant of a session. A coroutine is the state change that it makes: a session's
--   handlers run one after another, and nothing else writes its state. `Effect` is what a handler
--   gives: a session, or `wild` where it reads behind its line, or exhausted fuel. `feed` has a round
--   for each byte and `feed_data` one more.
--   Feed/Lines has the session as its client's lines make it: `serve` takes them one at a time, and
--   Session/Scratch tells a session from its buffers. Dialogue is the session as the client sees it,
--   a transition relation on what a reply's code tells of the transaction. Commands/Envelope prints
--   what a client says in a transaction: hosts, mailboxes and the lines of EHLO, MAIL and RCPT.
--   Process is smtp/src/main.cpp: the exchange, the socket, and a session for each connection.
-- Monitor: main/src/monitor.cpp, over the operating system's processes, which are a parameter with the
--   laws of fork and waitpid. Monitor/Runs has the steps: a process ends, a pending signal is read.
--   Monitor/Boot is main_async of main/src/main.cpp up to its loop.
--
-- Not modelled: in main/src/main.cpp and smtp/src/main.cpp the set-up of endpoints and signals and
-- the loops that poll, which are calls of the libraries eaio and eipc; stopped children and a failing
-- fork in the steps of Monitor; `rcpt_param`, which nothing calls; and the calls of the log, but for
-- the lines of smtp/src/main.cpp and of commands. The offset of `join`, the length that `look` counts
-- and the counter of file names, each an `int`, are numbers that do not wrap: the theorems ask for
-- less than 2 GiB of input, and for fewer than 2^31 names.
pub mod Base
pub mod Parse
pub mod Strings
pub mod Config
pub mod Common
pub mod Smtp
pub mod Monitor
