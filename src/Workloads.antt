-- ===== src/Workloads.antt =====
-- sysbench-0.5/sysbench/tests: the cpu, threads, mutex and memory tests, their requests and what they
-- execute. Pauses, log messages and the mutexes themselves are not modelled.
pub mod Cpu
pub mod Shared
pub mod Memory
mod Tests
