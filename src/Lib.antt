-- ===== src/Lib.antt =====
-- Link scheduling: a multithreaded TCP file server that serves GET and PUT requests in scheduling
-- rounds under FCFS, SJF, RR or DRR, and what its code is proved to do.
--
-- The program. An acceptor thread puts accepted sockets into an FdQueue; parser threads read a
-- header from each, answer HEALTH themselves, and push GET and PUT requests into a RequestQueue;
-- worker threads ask the Scheduler for a request and a byte budget, serve one round of it with
-- serve_get or serve_put, and put it back into the queue until it is done, when it is recorded.
--
-- Files of this library and the code that they model:
--   Request     queue.h: Operation, Request.
--   Queue       queue.h, queue.cpp: RequestQueue; Queue/Fd has FdQueue. An operation runs under
--               the mutex, so it is one function of the state; a wait on the condition variable is
--               the result `waits`. Queue/Order and Queue/Best have the proofs.
--   Scheduling  scheduling.h, scheduling.cpp: policies, next, get_budget, account, should_requeue.
--   World       socket.cpp (send_all, recv_data_with_timeout, close_socket), clock_ns.h, and the
--               state of the machine: files, sockets, clock. What the operating system answers is a
--               script in that state, used up call by call, so that a theorem about any World is one
--               about any such answers.
--   FileIo      file_io.h, file_io.cpp; FileIo/Lines has files as lists of lines.
--               The other modules with children have the proofs in them.
--   Socket      socket.cpp: read_header_line.
--   Protocol    protocol.h, protocol.cpp; an exception is the result `throws`.
--   Server      server.cpp: Server/Get is serve_get, one function for each loop, and Server/Put is
--               serve_put.
--   Metrics     metrics.cpp: record, completed_requests. Metrics/Csv is write_csv, Metrics/Summary is
--               nearest_rank and the numbers of print_summary, and Metrics/Sort is std::sort.
--   Worker      main.cpp: worker_thread, a turn of its loop. Worker/Deliver/Whole has the rounds of one
--               request, one after another.
--   Launch      main.cpp: main, from its arguments to the construction of the scheduler.
--   Acceptor    main.cpp: acceptor_thread.
--   Admission   main.cpp: parser_thread, a turn of its loop.
--   Config      config.h, config.cpp. Config/Parser and Config/Number are class Parser, on the text from
--               its position on; Config/Load is load_config; Config/Describes and Config/Faults say
--               what a file and a message mean; Config/Checks, Config/Fuel and Config/Print have
--               the proofs.
--   Client      client.cpp: read_status_line and recv_exact; Client/Requests is get_file, put_file and
--               health, on the socket that connect_to_server gives; Client/Options is main. Its World
--               is the client's machine.
--   System      main.cpp: the threads around the RequestQueue, as steps in any order.
--   Examples    runs on small inputs.
--   Prelude     lists, texts, Booleans and machine words that the others share.
--
-- Numbers. std::uint64_t and std::size_t are natural numbers. Sums and counters wrap at 2 ^ 64
-- (add64, sub64); a difference that the code guards is the plain one.
--
-- Fuel. The loops of serve_get and serve_put have fuel. select_loop is called with one more than the
-- budget, send_packets and receive_loop with one more than the bytes of the round, since every turn
-- that goes on takes a byte at least; gather runs on the lines that a packet may still take.
-- exact_loop of the client gets one more than the bytes it wants, prefix_loop one more than the bytes
-- of the leftover, and status_loop 8193, as header_loop.
-- header_loop adds a byte to the line in each turn and stops at 8192, so it has 8193 turns.
-- pending_loop stops after one turn that does something: that turn takes all the bytes of the round
-- or all that are pending.
-- run_rounds takes the number of rounds as fuel: for a GET, one more than `distance` is enough, where
-- the bytes that are left count for more than the deficit that is missing.
-- A JSON value and a turn of a loop of class Parser cost a unit of fuel; parse gives two for each byte
-- and one more, and a loop over a string gets the length of the text.
--
-- Numbers of JSON. A long long and an int are their bit patterns. A number that is no integer is
-- kept as its token, since nothing reads its double; out_of_range is the test of std::stod on it.
--
-- Order. In worker_thread complete() of the queue comes before close_socket; here the round has
-- closed the socket when its outcome reaches the queue. The two touch different state.
--
-- Streams. A write may fail at once, and then the stream is bad; or it seems to succeed and the last
-- bytes are lost when the stream is closed, which nobody is told (`unflushed` of World, close_stream of
-- Server/Put). What a stream that has gone bad leaves in its file is not told exactly.
--
-- The directory. Between the two calls of stat in parser_thread a file may go (`vanishings` of World).
--
-- Doubles. rank_of of Metrics/Summary has the percentiles 50 and 99, the only ones that are asked for;
-- there the doubles of nearest_rank come to the same whole number for fewer than 2^40 values.
--
-- Not modelled: the throughput and the console text of print_summary; of client.cpp connect_to_server
-- and the workload generator, which lists a directory and draws at random; of main.cpp the signals
-- and the creation of threads; messages on the console; spurious wakeups, which the predicates of the
-- condition variables undo.
pub mod Prelude
pub mod Request
pub mod Queue
pub mod Scheduling
pub mod World
pub mod FileIo
pub mod Socket
pub mod Protocol
pub mod Server
pub mod Metrics
pub mod Worker
pub mod Acceptor
pub mod Config
pub mod Client
pub mod Launch
pub mod Admission
pub mod System
pub mod Examples
