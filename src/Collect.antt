-- ===== src/Collect.antt =====
-- modules/console/panel.c, "collectors": what the dashboard shows of the processor in Cpu, of the
-- storage and the battery in Storage, of the processes in Procs and of who is logged in in Sessions.
pub mod Cpu
pub mod Storage
pub mod Procs
pub mod Sessions
pub mod Users
pub mod Largest
pub mod Shares
pub mod Below
