-- ===== src/Runner.antt =====
-- sysbench-0.5/sysbench/sysbench.c and sysbench.h: the command line, the set-up of a run, its threads, the
-- queue of events of the rate-limited mode and the reports during a run.
pub mod Queue
pub mod Schedule
pub mod Threads
pub mod Run
pub mod Setup
pub mod Names
pub mod Arguments
pub mod Main
mod Tests
