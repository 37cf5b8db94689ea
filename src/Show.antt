-- ===== src/Show.antt =====
-- "show system" of vtysh (src/cli/system_vty.c): `cli_system_get_all` and what it prints of the
-- Subsystem, System, Fan, LED, Power_supply and Temp_sensor tables.
pub mod Info
pub mod Sorting
pub mod Order
pub mod Devices
pub mod Statuses
pub mod Listing
pub mod Report
pub mod FruLines
pub mod Configured
mod Examples
