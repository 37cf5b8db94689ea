-- ===== src/Startup/Daemon/Examples.antt =====
-- The switch of the examples before the loop, in a course of three rounds.
use ops_sysd.Base.{◌≡◌, refl, true, [], ◌∷◌, none, some, arith}
use ops_sysd.Base.Text.{codes, strn_eq}
use ops_sysd.Base.Outcome.{Outcome, ok, ◌>>=◌}
use ops_sysd.Configure.Courses.Examples as Courses
use ops_sysd.Configure.Courses.Examples.{defaults, early_pass, same_columns}
use ops_sysd.Configure.Examples.{idl_names, address, find_first}
use ops_sysd.Configure.Rows.{c_string}
use ops_sysd.Configure.Run.{run_all}
use ops_sysd.Configure.Tables.{Globals}
use ops_sysd.Dump.{mgmt_name}
use ops_sysd.Fru.Read.{read_fru_eeprom, read_yaml, get_fru_info}
use ops_sysd.Manifest.{
  read_manifest_file, process_json, process_daemons, add_daemon, process_mgmt_intf, take_intf,
  store_intf_name, set_num_hw_daemons,
}
use ops_sysd.Startup.CfgYaml.{cfg_yaml_init}
use ops_sysd.Startup.Daemon.{Call, main, worked, main-run_all}
use ops_sysd.Startup.Examples.{switch}
use ops_sysd.Startup.HwDesc.{find_hw_desc_files}
use ops_sysd.Startup.Main.{
  Start, running, start, after_manifest, after_link, after_yaml, after_subsystem, after_interfaces,
}
use ops_sysd.Startup.Options.{unixctl, parsed, parse_options}
use ops_sysd.Startup.Rounds.Examples.{course}
use ops_sysd.Subsystem.{get_subsystem_info, get_interface_info, get_ports}

abbrev call : Call
call = record {
  rundir = codes "/run";
  options = unixctl (codes "ctl") ∷ [];
  arguments = [];
  appctl_ok = true;
}

abbrev pub globals_of : Outcome Start → Globals
globals_of (ok (running g)) = g
globals_of _ = Courses.globals

abbrev pub booted : Globals
booted = globals_of (start switch)

pub switch_boots : start switch ≡ ok (running booted)
unfolding start after_manifest after_link after_yaml after_subsystem after_interfaces cfg_yaml_init
    find_hw_desc_files read_manifest_file get_subsystem_info get_interface_info process_json strn_eq
    process_daemons add_daemon read_fru_eeprom read_yaml get_fru_info get_ports process_mgmt_intf
    take_intf store_intf_name
switch_boots = refl

pub booted_mgmt : mgmt_name booted.manifest.mgmt_intf ≡ ok (codes "eth0")
unfolding start after_manifest after_link after_yaml after_subsystem after_interfaces cfg_yaml_init
    find_hw_desc_files read_manifest_file get_subsystem_info get_interface_info process_json strn_eq
    process_daemons add_daemon read_fru_eeprom read_yaml get_fru_info get_ports process_mgmt_intf
    take_intf store_intf_name c_string set_num_hw_daemons
booted_mgmt = refl

call_parsed :
    parse_options call.rundir call.options call.arguments none
    ≡ parsed (codes "unix:/run/db.sock") (some (codes "ctl"))
unfolding parse_options
call_parsed = refl

-- The third pass is not made.
main-run_all_example :
    (main none idl_names address find_first same_columns defaults course Courses.at_start call
        switch
      >>= λ e. ok (
          worked none idl_names address find_first same_columns defaults course Courses.at_start e))
    ≡ (run_all idl_names address find_first same_columns booted defaults
          (early_pass ∷ early_pass ∷ [])
          Courses.at_start
        >>= λ t. ok (some t))
main-run_all_example =
    main-run_all none idl_names address find_first same_columns defaults course Courses.at_start
      call switch (codes "unix:/run/db.sock") (some (codes "ctl")) booted (codes "eth0") call_parsed
      refl switch_boots booted_mgmt (omega arith, (omega arith, (omega arith, tt)))
