-- ===== src/Startup/Booted/Examples.antt =====
-- The switch of the examples from its files to its first transaction.
use ops_sysd.Base.{All, ℕ, ◌≡◌, refl, ◌∷◌, [], List, some, none, arith}
use ops_sysd.Base.Int.{pos}
use ops_sysd.Base.Text.{codes}
use ops_sysd.Base.Outcome.{ok}
use ops_sysd.Configure.Courses.Examples as Courses
use ops_sysd.Configure.Examples.{idl_names, address, find_first, base}
use ops_sysd.Base.Text.{strn_eq}
use ops_sysd.Base.Decimal.{digits}
use ops_sysd.Configure.Initial.{initial_configure}
use ops_sysd.Configure.Rows.{c_string}
use ops_sysd.Configure.SubsystemLaws.{IsSmall}
use ops_sysd.Configure.Tables.{SystemConfig, Database}
use ops_sysd.Configure.Written.{IsConfigured}
use ops_sysd.Fru.Read.{read_fru_eeprom, read_yaml, get_fru_info}
use ops_sysd.Manifest.{
  read_manifest_file, process_json, process_daemons, add_daemon, process_mgmt_intf, take_intf,
  store_intf_name,
}
use ops_sysd.Startup.CfgYaml.{cfg_yaml_init}
use ops_sysd.Startup.HwDesc.{find_hw_desc_files}
use ops_sysd.Startup.Main.{
  start, after_manifest, after_link, after_yaml, after_subsystem, after_interfaces,
}
use ops_sysd.Startup.Booted.{IsWhole, start-IsConfigured}
use ops_sysd.Startup.Daemon.Examples.{booted, switch_boots, booted_mgmt}
use ops_sysd.Startup.Examples.{switch, interfaces, port}
use ops_sysd.Startup.Getters.{ConfigYaml, qos_env}
use ops_sysd.Subsystem.{store_base, Subsystem, get_subsystem_info, get_interface_info, get_ports}

abbrev first_of : List Subsystem → Subsystem
first_of [] = base
first_of (s ∷ ss) = s

abbrev subsystem : Subsystem
subsystem = first_of booted.subsystems

abbrev library : ConfigYaml ℕ
library = record {
  yaml_get_port_count = λ h name. pos 1;
  yaml_get_port = λ h name i. some port;
  yaml_get_port_info = λ h name. some interfaces;
  yaml_get_qos_info = λ h name. some Courses.qos_info;
  yaml_get_cos_map_entry_count = λ h name. pos 8;
  yaml_get_cos_map_entry = λ h name i. some (Courses.map_entry i);
  yaml_get_dscp_map_entry_count = λ h name. pos 64;
  yaml_get_dscp_map_entry = λ h name i. some (Courses.map_entry i);
  yaml_get_schedule_profile_entry_count = λ h name. pos 0;
  yaml_get_schedule_profile_entry = λ h name i. none;
  yaml_get_queue_profile_entry_count = λ h name. pos 0;
  yaml_get_queue_profile_entry = λ h name i. none;
  yaml_get_acl_info = λ h name. some Courses.limits;
}

booted_subsystem :
    (booted.subsystems ≡ subsystem ∷ [])
    × IsWhole subsystem.fru_eeprom [] []
    × All IsSmall subsystem.interfaces
unfolding start after_manifest after_link after_yaml after_subsystem after_interfaces cfg_yaml_init
    find_hw_desc_files read_manifest_file get_subsystem_info get_interface_info process_json strn_eq
    process_daemons add_daemon read_fru_eeprom read_yaml get_fru_info get_ports process_mgmt_intf
    take_intf store_intf_name c_string store_base digits
booted_subsystem = (
  refl,
  record { country_is = refl; date_is = refl; mac_size = refl },
  (
    record {
      speeds_short = (omega arith, tt);
      speeds_fit = omega arith;
      subports_fit = omega arith;
    },
    tt,
  ),
)

start-IsConfigured_example :
    (db : Database) × (sys : SystemConfig) × (initial_configure idl_names address find_first booted
        Courses.all_given
        (qos_env library 0 Courses.defaults.print Courses.defaults.strict)
        Courses.empty
      ≡ ok db)
    × IsConfigured idl_names address find_first booted
        (qos_env library 0 Courses.defaults.print Courses.defaults.strict)
        subsystem
        (codes "eth0")
        Courses.map_entry
        Courses.map_entry
        8
        64
        sys
        Courses.empty
        db
start-IsConfigured_example =
    start-IsConfigured library 0 Courses.defaults.print Courses.defaults.strict idl_names address
      find_first switch booted subsystem Courses.all_given (codes "eth0") [] [] Courses.qos_info
      Courses.limits Courses.map_entry Courses.map_entry 8 64 Courses.empty switch_boots
      booted_subsystem.0 booted_mgmt booted_subsystem.1 booted_subsystem.2
      (record { subsystem_list = refl; daemon_list = refl; interface_list = refl })
      Courses.defaults-HasDefaults Courses.names-IsOptionalSetter
