-- ===== src/Timezone.antt =====
-- src/cli/system_vty.c, include/system_vty.h: the timezone commands of vtysh. Zones builds the two
-- tables of zone names from the files of the system, Commands has the commands on the System row,
-- Status "show system timezone"; Apply is the daemon's side, `sysd_handle_timezone_update` of src/sysd_ovsdb_if.c.
pub mod Zones
pub mod Commands
pub mod Apply
pub mod Tables
pub mod Walk
pub mod Setting
pub mod Install
pub mod Status
pub mod Examples
