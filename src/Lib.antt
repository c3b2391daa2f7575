-- ===== src/Lib.antt =====
-- sysbench 0.5 (sysbench-0.5/sysbench), the benchmark tool of this repository.
--
-- A test hands out requests to a number of threads and executes them; timers and a histogram
-- measure the events, options configure the run, and the database layer sends queries for the
-- scripted tests. The parts and their models:
--   * Timer: sb_timer.c and sb_timer.h. `Timer` is sb_timer_t, `start`, `stop`, `value`, `split`,
--     `reset`, `merge` and `add_ns` are its functions with the reading of the clock as an
--     argument.
--   * Percentile: sb_percentile.c. `update`, `calculate` and `reset` over any type of floating
--     point numbers (`Doubles`).
--   * FileIo: tests/fileio/sb_fileio.c. Sequential is file_get_seq_request and check_seq_req,
--     Random is file_get_rnd_request, Execute is file_execute_request, Buffer is file_fill_buffer
--     and file_validate_buffer. Setup is parse_arguments, create_files and the command prepare,
--     Async the queue of asynchronous requests, and Run is file_init. `Config` holds the options
--     of a run, `State` its counters and cursors; each function between lock and unlock of the
--     mutex is one step on the state.
--   * Options: sb_options.c, the list of options, their names, values and sizes, and sets of
--     arguments; Options/Config is read_config and write_config on the text of a file,
--     and Options/Set is set_option, with the files that it reads.
--   * Logger: sb_logger.c. Text is text_handler_process with the lines that it prints, Oper is
--     oper_handler_process, with its update of the histogram behind its mutex as a step of its own,
--     and print_global_stats on the timers of the threads and the histogram (from Timer and
--     Percentile); Logger itself has the registration of handlers, log_msg, and
--     the buffers of log_text, log_timestamp and log_errno, for a call of printf as a function of
--     the size.
--   * Runner: sysbench.c. Arguments is parse_arguments, Setup is init, Main is main, Run is
--     run_test as the list of its calls, Threads is a runner_thread, Queue is the queue of events
--     between eventgen_thread_proc and the threads, and Schedule is when reports are made.
--   * Db: db_driver.c, query types, counters of the threads and db_query; Db/Bulk is the bulk
--     insert, Db/Statements the prepared statements and the choice of a driver, Db/Results the
--     rows of a result, Db/Reports the reports of the counters.
--   * Drivers: drivers/pgsql and drivers/mysql. Values is db_print_value, Expand the loop that
--     replaces the `?` of a query in a growing buffer, Postgres and Mysql the statements, their
--     parameters and errors, and the turn of the hosts, with what is sent as a list of commands.
--   * Scripts: scripting/script_lua.c, the parameters of a statement that a script in Lua binds and
--     executes, with what stands behind the pointers that a driver was given, for one that reads
--     lengths and flags for null; Scripts/Events is
--     the execution of an event of the script, with its restarts.
--   * Rand: sb_rand_uniform, sb_rand_gaussian, sb_rand_special, sb_rand_uniq and sb_rand_str of
--     sysbench.c.
--   * Workloads: tests/cpu, tests/threads, tests/mutex and tests/memory.
--   * Links: sb_list.h, the macros on pointers.
--   * Prelude: lists, integers and machine words over the native numbers.
--
-- Counters of the C types int, unsigned int and unsigned long long wrap at 2^32 and 2^64; other
-- conversions to int that C does not define are errors of the model, or excluded by a condition; file positions and sizes (long long) are natural numbers that do not overflow.
--
-- Parameters stand for what is not in these files: the clock, crc32, the answers of the operating
-- system, the database driver and its client library, the Lua interpreter, the kernel's queue,
-- floating point expressions, random() and strtol, and the texts of the files of options.
--
-- Loops are recursion on their data, except the divisor search of the cpu test and the rounds of
-- the mutex test, which take fuel: as much as the candidate, and as the number of locks, is
-- enough; the search for the next report, for which one round more than the clock reads is enough;
-- the doubling of a buffer, 32 times; the attempts to connect again, one more than fail; the calls
-- of an event, one more than restart; and the blocks of a file and the lines of a configuration,
-- one for each byte and one for each option.
--
-- A step of the threads is what one of them does under its mutex, and a run is any sequence of
-- steps.
--
-- Not modelled: printing of the usage, of the mode and of the fairness of threads, the alarm
-- handler, the calls that open, map, read and write files, the other functions for scripts in Lua,
-- the results of queries in the drivers, the drivers for oracle, drizzle and attachsql, and the
-- vendored Lua interpreter and crc32. The other parts use lists for the circular lists of
-- sb_list.h.
pub mod Prelude
pub mod Timer
pub mod Percentile
pub mod FileIo
pub mod Options
pub mod Db
pub mod Rand
pub mod Workloads
pub mod Logger
pub mod Runner
pub mod Links
pub mod Drivers
pub mod Scripts
