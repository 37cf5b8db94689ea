-- ===== src/Startup.antt =====
-- `main` of src/sysd.c: the hardware description files (src/sysd_util.c), the YAML library
-- (src/sysd_cfg_yaml.c), the command line, the steps before the loop in their order, and the loop.
pub mod HwDesc
pub mod CfgYaml
pub mod Main
pub mod Getters
pub mod Link
pub mod Started
pub mod Booted
pub mod Options
pub mod Loop
pub mod Rounds
pub mod Daemon
pub mod Examples
