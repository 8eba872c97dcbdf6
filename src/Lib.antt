-- ===== src/Lib.antt =====
-- A producer and a consumer that pass a file through shared memory (spsc).
--
-- Queue.antt models q.c: the ring buffer between the file reader and the sender (`q_init`, `q_add`,
-- `q_remove`, `q_full`, `q_empty`). Queue/Fifo is the sequence that it stands for, Queue/View the
-- ring up to what its calls can tell apart, Queue/Print what `print_q` prints, and Queue/Programs the
-- test programs `T1` and `T2`.
-- Radix.antt models radix_sort.c: `radix_sort`, `reverse`, `move_array` and `binarySearch`;
-- Radix/Programs are its test programs.
-- Asgard.antt models asgard.c and memory.c: the shared segment and its allocator; Asgard/Programs are
-- the test programs of memory.c.
-- Substring.antt models substring.c: the search for a pattern in a stream (`sstring_init`,
-- `sstring_compute`), and Substring/Report what `print_sstring` and the test program print.
-- Hash.antt models util.c: the readable MD5 digest of a piece and the check of it (`toDec`,
-- `readable_hash`, `does_string_intact`), Hash/Bin `toBin`, and Hash/Programs the test programs.
-- Lock.antt models the spin lock of util.c (`lock`, `unlock`) as threads that take turns.
-- Log.antt models LOGI and LOGD of log.h, with `TimeStamp` of util.c, as threads that take turns.
-- Config.antt and Config/Read model ini_parser.c: `read_line` and `ini_parse` as a machine on the
-- bytes of config.ini, and `asgard_config_read`. Config/Print writes such a file, and
-- Config/Report is what the test program prints of the two configurations.
-- Message.antt models what jane.c and thor.c say to each other: the text of `client_socket_send`
-- between its markers, and `parse_data`.
-- Frame.antt models the framing of both: `client_socket_rcv` and `server_socket_rcv` on the pieces that
-- `recv` gives.
-- Segment.antt is the shared segment as bytes that are stored and loaded.
-- Jane.antt models jane.c and Thor.antt models thor.c, function by function (Jane/Start and
-- Thor/Start their `main`). Outside.antt says what both take from elsewhere.
-- Threaded.antt models what jane.c has between `#ifdef threaded`: a thread that reads ahead into the
-- ring of q.c, and the one that takes buffers out of it, in any order of their steps.
-- System.antt puts the two programs together: a round of `client_loop` (jane.c) with the answer of
-- `server_loop` (thor.c), in which an event says what the network does with the two messages, and
-- what Loki, who shares the segment, writes in the round: between the read of the file and the
-- producer's digest, before the consumer's check of it, between the check and the output, and between
-- the output and the search. System/Trace is
-- what the consumer gets to see of such rounds: the pieces that come on the connection, and the
-- segment when it is checked, when the bytes are written, and when they are searched.
-- Examples.antt holds what the tests share.
-- Prelude and the modules below it hold what the others share; Prelude/Effects says how a call of a
-- C function ends.
--
-- An `int` that the code keeps from being negative is a native number, and an array is a list. The
-- sum that sizes the segment and the factor of the radix sort are held to `INT_MAX`, past which the
-- result is `undefined` or `int_overflow`. Arrays of the allocator have their `members` as length.
-- The loop of `radix_sort` has fuel 11: `significantDigit` passes `INT_MAX` in its tenth round, and
-- the result `out_of_fuel` never occurs where a theorem gives the result. What an uninitialised
-- local array holds is an argument (`stack`, `semi_sorted`), over which the theorems range. The loop
-- of `ini_parse` has as fuel the number of bytes and one. System V shared memory is the record
-- `SharedMemory` of two functions; OpenSSL's MD5 and the C library's `atoi` and `%d` are arguments.
--
-- A `recv` that fails is an empty piece, and a connection that is closed the end of the pieces. The
-- loop of `client_loop` runs for as many rounds as there are events, and a theorem that it ends says
-- so; the inner loop of `server_loop` has as fuel the number of pieces and bytes that come, and one.
-- Calls of C functions on shared bytes (`fread`, MD5, `fwrite`) read and write them at once, so
-- Loki acts between them. The place of a match, a `long long`, is cut to 32 bits where it is stored.
--
-- Not modelled: where the program logs, and what else it prints; the addresses and options of the
-- sockets; what `threaded`, with which the code does not compile, changes in `client_loop` and `main`
-- of jane.c, and its `free_buffers`.
pub mod Asgard
pub mod Config
pub mod Examples
pub mod Frame
pub mod Hash
pub mod Jane
pub mod Lock
pub mod Log
pub mod Message
pub mod Outside
pub mod Prelude
pub mod Queue
pub mod Radix
pub mod Segment
pub mod Substring
pub mod System
pub mod Thor
pub mod Threaded
