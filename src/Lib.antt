-- ===== src/Lib.antt =====
-- Verification of the programs of the repository, four small Unix programs and their helpers:
-- the sparse file copier (task1-sparse), the lock file protocol (task2-lock), the process
-- supervisor (task3-myinit), and the socket server of the adding bots with its client
-- (task4-brownian-bot).
--
-- The programs of the first three tasks share no code and do not call one another; the server and
-- the client of the fourth talk to each other over a socket. What all share here is Prelude (names
-- of the libraries, Boolean tests, lists measured by native numbers, signed integers), Kernel (the
-- answers to system calls) and Text (digits, printing in decimal, strtoul, C strings).
--
-- * Sparse models task1-sparse/myprogram.c. Sparse/Disk is the interface to the kernel's files, a
--   record of operations (write, seek, ftruncate, read back) and the laws that the copier relies on;
--   the other modules take it as a parameter, and Sparse/Tests fills it. Sparse/Block has full_write
--   and block_is_all_zeroes, Sparse/Copy the loop of main that reads, skips and writes blocks,
--   Sparse/Main the options (the answers of getopt are a list), the files and every way out of main.
--   Sparse/Content, Correct, Finishes, Exits and Zeros are proofs.
-- * Lock models task2-lock/lockprog.c. Lock/Start has the options, build_lock_path and the way to the
--   loop, Lock/Pid parses and prints the content of the lock file, Lock/Calls has the loops round
--   single system calls. Lock/Worker is one process as a state machine: a point of the loop of main
--   with its live locals, and an event for each answer of the kernel. Lock/System puts any number of
--   processes round one directory entry and its inodes, one event of one process at a time, in any
--   order. Lock/Starting, Owner, Frame, Exclusion, Clean and Release are proofs, most of them over
--   every reachable state.
-- * Myinit models task3-myinit/myinit.c. Myinit/Daemon has daemonize and what it calls, on the table
--   of descriptors of Myinit/Descriptors, and Myinit/Exec the child between fork and execv.
--   Myinit/Config has the lines and words of the configuration and the table of entries, Myinit/Files
--   the file they come from. Myinit/Children has the globals (g_config, g_children, the flags) and the
--   functions that start, find, signal and reap children; Myinit/Main has reload_config and one pass
--   of the loop of main, Myinit/Life what main does from the configuration on, with any number of
--   passes and the signals between them, Myinit/Launch the whole of main, Myinit/Nap
--   short_sleep_poll, and Myinit/Log what log_fmt makes of the text of a line. The other modules of Myinit are proofs and tests.
-- * Server models task4-brownian-bot/server.c. Server/SetUp goes from the start to the listening
--   socket, with what is undone on each way out. Server/Long has strtol, the checked sum and its
--   printing, Server/Lines parse_and_queue_lines, Server/Client one client with its buffers and the
--   loops of recv and send, Server/Poll the slots, accept and one pass of the loop of main, in which
--   every client adds to one sum, Server/Main any number of passes, the signal handler and the end
--   of the clients, Server/Whole the whole of main. The other modules of Server are proofs.
-- * BotClient models task4-brownian-bot/client.c: BotClient/Address the socket's name and the
--   connection, BotClient/Wire write_all and read_line_fd with its static buffer, BotClient/Main the
--   loop over the input. BotClient/Stream, Sending and InputLines are proofs about these,
--   BotClient/Dialogue and Asking put the client together with parse_and_queue_lines of the server,
--   and BotClient/Meeting the address of the one with that of the other.
--
-- How state and operations correspond to the code:
-- - A C function that changes state is a function from the state before to the state after, with the
--   answers of the kernel as a list or a record of answers. A list that ends early leaves the loop
--   blocked, which is a value of its own. Termination is proved where the answers go far enough.
-- - malloc, calloc, strdup and realloc answer by a Boolean each.
-- - Bytes are numbers. Machine integers that may wrap keep their modulus; signed overflow is the
--   value undefined. off_t and the lengths of buffers that memory bounds are not bounded.
-- - parse_loop of Server/Lines runs on fuel one above the length of the buffer: every round takes a
--   byte at least. Printing a number n runs on fuel n + 1: every round divides n by ten. input_lines
--   of BotClient/Main runs on fuel one above the length of the input, of which fgets takes a byte at
--   least each time.
-- - A descriptor that was closed counts as released whatever close answers. The calls that give a
--   descriptor answer with it; that it is the lowest free one, as POSIX says, is a hypothesis
--   (LowestFree in Myinit/Descriptors) where a theorem needs it.
-- - In the lock protocol nothing but the processes changes the directory, pids are different, and
--   what the theorems assume of failing calls is said with them.
-- - In the supervisor a log line keeps its numbers and loses its text, waitpid gives a pid and a
--   status, and the kernel's table of processes is what waitpid and fork answer.
--
-- Not modelled: test_client.c and test_worker.c, which drive the tests; the texts of log lines and of
-- messages to the terminal; the answers of sigaction, setsockopt and close that the code throws away.
-- They hand values on to the kernel or the terminal and change nothing that the modelled parts
-- read. Reading and writing one and the same file in the copier is outside the model.
pub mod Prelude
pub mod Kernel
pub mod Text
pub mod Sparse
pub mod Lock
pub mod Server
pub mod BotClient
pub mod Myinit
