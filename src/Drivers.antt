-- ===== src/Drivers.antt =====
-- sysbench-0.5/sysbench/drivers: the drivers of the databases. A database server and its client
-- library are parameters.
pub mod Values
pub mod Expand
pub mod Postgres
pub mod Mysql
mod Tests
