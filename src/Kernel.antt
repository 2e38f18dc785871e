-- ===== src/Kernel.antt =====
-- The kernel as a process: its output, its start and stop, the search for its binary, and its start
-- after an installation.
pub mod Output
pub mod Process
pub mod Runs
pub mod Restore
