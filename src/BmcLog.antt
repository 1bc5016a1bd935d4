-- ===== src/BmcLog.antt =====
-- bmc-log-collector: the pointer files, the collection of one machine's system event log, and the
-- removal of the pointer files of machines that have gone.
pub mod Pointer
pub mod Collector
pub mod Cleanup
