-- ===== src/Lib.antt =====
-- ops-sysd, the OpenSwitch system daemon: a model of its C code and what it guarantees.
--
-- The program. At start `main` of src/sysd.c finds the hardware description files, reads the FRU
-- EEPROM and the image manifest, and fills two globals: the base subsystem and the list of daemons.
-- Its loop then runs `sysd_run` of src/sysd_ovsdb_if.c: the first pass that sees no System row writes
-- the whole configuration in one transaction; later passes wait for the hardware daemons to report in
-- the Daemon table and then mark the hardware as configured.
--
-- The files.
--   Base           names shared by all: tests on numbers, lists, C strings, signed integers, and the
--                  outcome of a run (a value, undefined behaviour, or no fuel)
--   Fru            src/sysd_fru.c with calc_crc of src/sysd_util.c and the two FRU functions of
--                  src/sysd_cfg_yaml.c. Layout holds the record and the TLV types, Eeprom the loop over
--                  the image, Read the header and the two sources; Image describes images and what
--                  they stand for, Fields, RoundTrip, EndToEnd, Termination, Overflow and ReadLaws
--                  hold the proofs
--   Subsystem      sysd_get_subsystem_info and sysd_get_interface_info of src/sysd.c; Macs and Ports
--                  hold the proofs
--   Manifest       src/sysd_util.c from sysd_read_manifest_file down, on the JSON tree of Tree;
--                  Entries says what its members stand for; Sections, Counts, Runs and
--                  Success hold the proofs
--   HwDone         sysd_chk_if_hw_daemons_done and sysd_set_hw_done of src/sysd_ovsdb_if.c; Decision
--                  holds the laws of the rows that one check finds, Own those of the rows of the daemons
--                  themselves, Reports those of every interleaving with the daemons
--   Packages       sysd_add_package_info of src/sysd_ovsdb_if.c: the YAML events, the open transaction and
--                  the table. Document says what the file is meant to hold; Steps, Batches and Faults
--                  hold the proofs
--   Qos            src/qos_init.c and src/acl_init.c. Maps has the COS and DSCP maps, Columns the trust
--                  mode and the ACL limits, Profiles what the queue and the schedule profiles share,
--                  Queues and Schedules the two kinds; MapLaws, ProfileLaws, QueueLaws, QueueDefaults,
--                  ScheduleLaws and ScheduleDefaults hold the proofs
--   Release        sysd_update_sw_info of src/sysd_ovsdb_if.c, on the lines of the release file; Laws
--                  holds proofs on the lines, Document those on a file of assignments
--   Timezone       src/cli/system_vty.c and its header, the callback of
--                  src/cli/vtysh_ovsdb_system_context.c and sysd_handle_timezone_update of
--                  src/sysd_ovsdb_if.c. Zones builds the tables, Commands has the commands and what prints
--                  the column, Apply the link; Tables, Walk, Setting and Install hold the proofs
--   Configure      src/sysd_ovsdb_if.c: sysd_initial_configure with all that it calls, and sysd_run.
--                  Speeds, Interfaces, Splits and Rows have the rows of a subsystem and its interfaces,
--                  Tables all tables and inputs, Initial the whole first transaction, Run one pass of the
--                  daemon; SplitLaws, SubsystemLaws, Complete, Written, Once, Passes and Courses hold the
--                  proofs, Phases and Refinement the machine that every pass is a step of
--   Show           src/cli/system_vty.c: "show system". Info has the overview of the subsystem, Sorting
--                  the arrays that are sorted, Devices the rest; Order, Statuses, Listing, Report, FruLines
--                  and Configured hold the proofs, the last of them on what the first configuration
--                  leaves. "show system timezone" is in Timezone, in Status
--   Dump           sysd_dump of src/sysd_ovsdb_if.c and its callers in src/sysd.c; Text and Replies hold
--                  the proofs
--   Registration   sysd_ovsdb_conn_init of src/sysd.c, on an IDL with the laws that OVS documents; Vtysh
--                  has system_ovsdb_init, cli_pre_init and cli_post_init of src/cli/system_vty.c, and
--                  "show date" and "show system clock", which only run a command. Columns, Modes
--                  and Waking hold the proofs, Ready those on what a report of a hardware daemon leads
--                  to, and Linked those on "timezone set" up to the link
--   Startup        main of src/sysd.c: HwDesc has the hardware description files of src/sysd_util.c,
--                  CfgYaml sysd_cfg_yaml_init of src/sysd_cfg_yaml.c, Getters its getters, Main the steps before
--                  the loop, Options the command line, Loop the loop, Daemon all of it;
--                  Link, Started, Booted and Rounds hold proofs
-- A C function keeps its name without the prefix sysd_ or qos_. Each component has a module Examples
-- that runs its definitions and applies its theorems to concrete data.
--
-- Conventions. A string is the list of its bytes without the NUL; a pointer that may be NULL is an
-- Option; an int status is Rc. Reads and writes outside an object, failed assertions and followed NULL
-- pointers are `fault`. An int in memory has its lowest byte first. Numbers are natural numbers with the wrap-around of their C type written out.
-- The loop over the TLVs is the only one on fuel: it is given the length of the image plus one, and
-- every TLV takes at least two bytes, so it never runs out.
--
-- What stands for code elsewhere. config-yaml, the i2c reader, zlib's crc32, libc's sscanf and rand,
-- the allocators, qsort, getopt_long, the JSON reader, libyaml's events, the file system's calls, the lookup in an shash, the
-- IDL of OVS, the registration of commands in vtysh, the strings of the schema, what the setter of VRF's table_id reads, and the results of OVS's transactions are arguments of the definitions that use
-- them.
--
-- Not modelled: log messages and events, the text of usage, the registration of the callbacks for dumps,
-- and the IDL's own state.
pub mod Base
pub mod Fru
pub mod Subsystem
pub mod Manifest
pub mod HwDone
pub mod Packages
pub mod Qos
pub mod Release
pub mod Timezone
pub mod Configure
pub mod Show
pub mod Registration
pub mod Dump
pub mod Startup
