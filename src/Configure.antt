-- ===== src/Configure.antt =====
-- src/sysd_ovsdb_if.c: the first configuration of the database, `sysd_initial_configure` and what it
-- calls, and the pass `sysd_run` that decides when it is written.
pub mod Speeds
pub mod Interfaces
pub mod Splits
pub mod SplitLaws
pub mod Rows
pub mod Tables
pub mod Initial
pub mod Run
pub mod Once
pub mod Passes
pub mod SubsystemLaws
pub mod Complete
pub mod Written
pub mod Phases
pub mod Refinement
pub mod Courses
pub mod Examples
