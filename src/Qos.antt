-- ===== src/Qos.antt =====
-- src/qos_init.c and src/acl_init.c: the rows and columns of the first configuration that hold the
-- QoS defaults and the ACL limits. Column is what a column of map type holds; Maps has the COS and
-- DSCP maps, Columns the trust mode and the ACL limits, Profiles what the queue and the schedule
-- profiles share, Queues and Schedules the two kinds.
pub mod Column
pub mod Maps
pub mod MapLaws
pub mod Columns
pub mod Profiles
pub mod Queues
pub mod ProfileLaws
pub mod QueueLaws
pub mod QueueDefaults
pub mod Schedules
pub mod ScheduleLaws
pub mod ScheduleDefaults
mod Examples
