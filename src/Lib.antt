-- ===== src/Lib.antt =====
-- A verification library for a collection of small programs on processes, threads, pipes, signals,
-- semaphores, shared memory and files.
--
-- The programs do not call each other. Those that run several processes or threads are modelled over
-- one module, Process: what is shared, a place in the code for each process, and a function that says
-- what a process makes of both in one step; the processes take their steps in any order. Those that
-- use semaphores take P_oper, V_oper and Z_oper from Sems, those that send messages take the calls of
-- Messages. The others are functions of what the system calls give them.
--
--  - Prelude and its children: what all modules share: tests on numbers, lists, families indexed by
--    numbers with sums over them, and integers with the conversion to `int`.
--  - Process: `Step` and `Reach`, the orders of steps; `schedule`, the same by evaluation; `steps`, the
--    length of a run.
--  - Sems: P_oper, V_oper and Z_oper of the four headers semaphs_tasks/bridge_simulator/semaphs.h,
--    semaphs_tasks/herdsmans/semaphors.h, 7sem/semaphors.h and 8sem/semaphors.h. The system call semop
--    is a parameter, with what its manual page says of it (IsSemop); Sems.Model has a concrete one.
--  - Bridge: semaphs_tasks/bridge_simulator/bridge.c. `car_method` and `ship_method` are Car_method and
--    Ship_method, one clause for each operation; `init` is Init, `method` the call in a child of main,
--    and `fork_loop` the loop that makes the children. Shared memory is the record BridgeOrgnz;
--    `++` and `--` on it are two steps, a read and a write. Bridge.Leftovers is main.
--  - Channel: 8sem/server.c and 8sem/client.c. `server` and `client` are the two functions
--    Start_working with My_write. The files of a client are the results of open, fgets and fclose.
--  - Boat: 7sem/my_boat.c. `passengers`, `captain` and `sems_processing` are the functions of these names.
--    Boat.Scenes has states by their values and places, Boat.Boarding and Boat.Stranded a run of them.
--  - Threads: 9sem/my_pthreads.c. `first_algo` to `fourth_algo` are the four thread functions,
--    `my_threads` the threads that My_threads creates. Locking and unlocking a mutex are parameters
--    (IsMutex). `counter++` is two steps, a read and a write. Threads.Main is main.
--  - Pipe: the counting of 5sem/my_pipe.c. `counter_func`, `str_counter` and `word_counter` are
--    Counter_func, Str_counter and Word_counter; isspace is a parameter, and so are the results of read.
--  - Messages: message queues. The system calls msgsnd and msgrcv are parameters, with what their manual
--    page says of them (IsMsgQueue); Messages.Model has concrete ones.
--  - Runners: 6sem/runners_proc.c. `judge` and `runner` are Judge and Runner, one clause for each message;
--    process 0 is the judge.
--  - Herdsmen: semaphs_tasks/herdsmans/herds_man.c. `herdsman` is Herdsman with Herdsman_down and
--    Herdsman_up, `sems_processing` is Sems_processing. The declaration `Shared int` does not compile as
--    it stands; the variables are read as shared memory, which it names.
--  - MsgHerdsmen: msg_task/herdsmans/msg.h and main.c. `herdsman` is Herdsman with Herdsman_at_the_bot and
--    Herdsman_at_the_top. The globals are not shared behind fork, so that each process has its own.
--  - Signals: semA/unreliable_sig.c. `reader_method` and `writer_method` are the two handlers with their
--    static variables, `exchange` lets one answer the other. Signals.Processes has the two processes of
--    main: `reader_process` is the parent and `writer_process` the child, with the signals that are
--    pending. signal() keeps a handler that it has called, and wait goes on behind one.
--  - Files: 3sem/my_cp/my_cp.c. `my_write`, `my_read`, `get_options`, `dst_process`, `copy_file`,
--    `check_dir` and `buffer_processing` are the functions of these names; the results of the system
--    calls are parameters.
--    Files.Program has `main` as a whole, `my_cp`, with Print_verb. Files.Prompt has Write_prompt and
--    Get_prompt, Files.Bytes and Files.Contents the bytes that the writes bring to the destination.
--  - Timing: 4sem/my_exec.c and Final_work/Final_work.c, and Print_time of four programs. The arithmetic
--    of double is a parameter (Doubles).
--  - Simple: 3sem/my_cp/stupid_my_cp.c. `simple_write`, `simple_read` and `simple_copy` are My_write,
--    My_read and Simple_copy.
--  - Cat: 3sem/my_cat.c. `my_write` and `my_read` are the functions of these names, `cat_files` and
--    `cat_stdin` the two parts of main. Two slips of the pen, in lines 34 and 58, are read as meant.
--  - Users: 2sem/my_id.c. `my_id` is main; the databases of users and of groups are the record System.
--  - Basics: `echo_call` of 1sem/my_echo.c, the processes that 4sem/my_fork.c makes, and in
--    Basics.Column those of My_fork_column as they run.
--
-- Each component has its tests and the theorems at concrete data in its module Tests.
--
-- Bounds and fuel. A run in Reach has any finite length. The rounds of Signals' `exchange` are fuel;
-- eight for each byte of the input, and one, are enough, as exchange_lem shows. Numbers
-- of processes, of waiting cars and of bytes are bounded where the source's types bound them, and each
-- theorem states its bound. The largest value of a semaphore is 32767.
--
-- The room of a message queue is counted in messages, and a theorem that needs room says how much.
--
-- Not modelled: what is printed but by the server, by the writer of the signals, by the counting, by
-- my_cat, by my_id and with the time, and the lines of -v and the prompts of my_cp (messages, and
-- sleep between them); fork, exec, semget, shmget and msgget as system calls, of which only the
-- results stand in Bridge.Leftovers; errors of pthread functions; in my_pipe.c the pipe, its child and
-- what main makes of the options; the other main functions that make semaphores, shared memory and
-- queues. A process that is killed or that ends in the middle by other means than its own exit is
-- modelled only in Signals.Processes. 1sem/hello.c, 1sem/test_pid.c and semB/program.c only print, and
-- are left out.
pub mod Prelude
pub mod Process
pub mod Sems
pub mod Bridge
pub mod Channel
pub mod Pipe
pub mod Signals
pub mod Threads
pub mod Boat
pub mod Files
pub mod Basics
pub mod Messages
pub mod Runners
pub mod Herdsmen
pub mod Simple
pub mod Cat
pub mod MsgHerdsmen
pub mod Users
pub mod Timing
