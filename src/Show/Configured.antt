-- ===== src/Show/Configured.antt =====
-- "show system" (src/cli/system_vty.c) on the database that the daemon has just configured
-- (src/sysd_ovsdb_if.c), before any other daemon has linked a device to the subsystem.
use mathlib.Core.List.{flatten}
use ops_sysd.Base.{ℕ, ◌≡◌, refl, ap, ◌∙◌, Bool, List, [], ◌∷◌, ◌++◌, Option, none, some}
use ops_sysd.Base.Text.{Bytes}
use ops_sysd.Base.Outcome.{ok}
use ops_sysd.Configure.Complete.{HasDefaults, IsLoaded}
use ops_sysd.Configure.Initial.{bridge_interface, initial_configure}
use ops_sysd.Configure.Interfaces.{IdlNames}
use ops_sysd.Configure.Rows.{mac_format, SubsystemRow}
use ops_sysd.Configure.Splits.{Shash}
use ops_sysd.Configure.SubsystemLaws.{IsReady}
use ops_sysd.Configure.Tables.{SystemConfig, Database, QosEnv, Globals, Allocs, blank_system}
use ops_sysd.Configure.Written.{IsOptionalSetter, initial_configure-IsConfigured}
use ops_sysd.Qos.Columns.{YamlQosInfo, YamlAclInfo}
use ops_sysd.Qos.Maps.{YamlMapEntry}
use ops_sysd.Release.{update_sw_info}
use ops_sysd.Show.Devices.{
  SubsystemView, ShownTables, VtyNames, fan_heading, psu_heading, show_leds, show_sensors,
  show_fans, show_psus, show_subsystem, cli_system_get_all,
}
use ops_sysd.Show.FruLines.{render, overview, format_sys_output-fru}
use ops_sysd.Show.Info.{format_sys_output}
use ops_sysd.Show.Sorting.{Qsort}
use ops_sysd.Subsystem.{YamlPortInfo, Subsystem}
use ops_sysd.Timezone.Commands.{cmd_success}

-- The first row of each table as vtysh reads it: the daemon writes no column that refers to a device.
abbrev pub first_subsystem : List SubsystemRow → Option SubsystemView
first_subsystem [] = none
first_subsystem (row ∷ rows) = some (record {
  other_info = row.other_info;
  n_fans = 0;
  n_leds = 0;
  n_power_supplies = 0;
  n_temp_sensors = 0;
})

abbrev pub first_version : List SystemConfig → Option (Option Bytes)
first_version [] = none
first_version (sys ∷ rest) = some sys.software.switch_version

-- The database of the daemon, with tables of devices that others have filled.
abbrev pub shown : Database → ShownTables → ShownTables
shown db devices = record devices {
  subsystem = first_subsystem db.subsystems;
  switch_version = first_version db.systems;
}

-- The overview, and the headings with nothing under them
abbrev pub bare_report : VtyNames → (text : Bytes) → Bytes
unfolding flatten
bare_report names text = flatten (
    text
    ∷ fan_heading names
    ∷ show_leds names 0 []
    ∷ psu_heading names
    ∷ show_sensors names 0 []
    ∷ [])

module _ (names : VtyNames) (qsort : Qsort) (fans_ok psus_ok : Bool) (devices : ShownTables) where
  cli_system_get_all-bare :
      (db : Database) (sys : SystemConfig) (row : SubsystemRow)
      → db.systems ≡ sys ∷ []
      → db.subsystems ≡ row ∷ []
      → cli_system_get_all names qsort fans_ok psus_ok (shown db devices)
        ≡ ok (
          cmd_success,
          bare_report names
              (format_sys_output names.newline sys.software.switch_version row.other_info),
        )
  unfolding cli_system_get_all show_subsystem show_fans show_psus
  cli_system_get_all-bare db sys row e f = rw (e, f) refl

  -- Where there is memory, an interface for management, one subsystem that is ready, as many daemons
  -- as counted, defaults for QoS and ACLs, and a setter of table_id for at most one value: on a
  -- database without a System and a Subsystem row, `sysd_initial_configure` does not fault. Of what
  -- it leaves, "show system" prints the version of the release file, the strings of the FRU data,
  -- its address and number of addresses, and the count and the greatest speed of the interfaces,
  -- each behind its label, and then the headings of the devices with nothing under them, whatever
  -- devices there are.
  pub cli_system_get_all-configured :
      (idl : IdlNames) (ether_string : ℕ → Bytes) (find : Shash → Bytes → Option ℕ)
      (globals : Globals) (allocs : Allocs) (env : QosEnv) (s : Subsystem)
      (mgmt country date : Bytes) (port_info : YamlPortInfo) (info : YamlQosInfo)
      (acl : YamlAclInfo) (cos dscp : ℕ → YamlMapEntry) (n m : ℕ) (db : Database)
      → db.systems ≡ []
      → db.subsystems ≡ []
      → IsLoaded globals allocs s mgmt
      → IsReady s country date port_info
      → HasDefaults env info acl cos dscp n m
      → IsOptionalSetter idl.table_id_reads
      → (db' : Database) × (mac : Bytes) × (initial_configure idl ether_string find globals allocs
            env db
          ≡ ok db')
        × (mac_format s.fru_eeprom.base_mac_address ≡ ok mac)
        × (cli_system_get_all names qsort fans_ok psus_ok (shown db' devices)
            ≡ ok (
              cmd_success,
              bare_report names (
                  render (
                    overview names.newline
                      (update_sw_info globals.release blank_system.software).switch_version
                      s.fru_eeprom
                      mac
                      date
                      port_info)),
            ))
  cli_system_get_all-configured idl ether_string find globals allocs env s mgmt country date
        port_info info acl cos dscp n m db e f g r h o =
      let (db', sys, made, c) =
        initial_configure-IsConfigured idl ether_string find globals allocs env s mgmt country date
          port_info info acl cos dscp n m db g r h o in
      let (row, rows, added) = c.subsystem_rows in
      let (mac, is_mac, text) =
        format_sys_output-fru idl ether_string find names.newline globals.hw_desc_dir
          sys.software.switch_version s country date port_info
          (db.interfaces ++ bridge_interface idl ∷ []) db'.interfaces row r added in
      (
        db',
        mac,
        made,
        is_mac,
        cli_system_get_all-bare db' sys row (c.system ∙ ap (λ l. l ++ sys ∷ []) e)
              (rows ∙ ap (λ l. l ++ row ∷ []) f)
            ∙ ap (λ t. ok (cmd_success, bare_report names t))
                (text
                  ∙ ap
                      (λ w.
                        render
                          (overview names.newline w.switch_version s.fru_eeprom mac date port_info))
                      c.software),
      )
