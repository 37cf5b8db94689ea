-- ===== src/Configure/Written.antt =====
-- The whole first configuration: it returns, and what the tables then hold.
use mathlib.Core.List.{append_assoc}
use ops_sysd.Base.{
  ℕ, suc, ◌≡◌, refl, true, ap, List, [], ◌∷◌, ◌++◌, map, map-append, Option, some, length,
}
use ops_sysd.Base.Text.{Bytes}
use ops_sysd.Base.Outcome.{ok, fault}
use ops_sysd.Configure.Initial.{
  start_row, finish_row, set_macs, with_daemons, configure_daemons, bridge_interface,
  configure_default_bridge, default_vrf, set_table_id, configure_default_vrf, add_subsystems,
  configure_subsystems, initial_configure,
}
use ops_sysd.Configure.Tables.{
  dflt_timezone, SystemConfig, Database, QosEnv, Globals, Allocs, blank_system,
}
use ops_sysd.Configure.Complete.{
  HasDefaults, IsLoaded, qos_row, qos_tables, daemon_row, with_rows, configure_daemons-returns,
}
use ops_sysd.Configure.Interfaces.{IdlNames, Interface}
use ops_sysd.Configure.Rows.{SubsystemRow, initial_subsystem_add}
use ops_sysd.Configure.Splits.{Shash, places}
use ops_sysd.Configure.SubsystemLaws.{
  IsReady, subsystem_row, added_rows, initial_subsystem_add-rows,
}
use ops_sysd.Qos.Columns.{YamlQosInfo, YamlAclInfo}
use ops_sysd.Qos.MapLaws.{IsFilled}
use ops_sysd.Qos.Maps.{YamlMapEntry, MapEntry, set_cos_map_entry, set_dscp_map_entry}
use ops_sysd.Release.{update_sw_info}
use ops_sysd.Subsystem.{YamlPortInfo, Subsystem}

-- What the first transaction adds to a database.
pub record IsConfigured (names : IdlNames) (ether_string : ℕ → Bytes)
    (find : Shash → Bytes → Option ℕ) (globals : Globals) (env : QosEnv) (s : Subsystem)
    (mgmt : Bytes) (cos dscp : ℕ → YamlMapEntry) (n m : ℕ) (sys : SystemConfig) (db db' : Database)
    : Type 0 where
  pub system : db'.systems ≡ db.systems ++ sys ∷ []
  pub vrf_row : db'.vrfs ≡ db.vrfs ++ default_vrf names (0 ∷ []) ∷ []
  pub vrf_refs : sys.vrfs ≡ length db.vrfs ∷ []
  pub management : sys.mgmt_intf ≡ (names.mgmt_intf_name_key, mgmt) ∷ []
  pub management_mac : sys.management_mac ≡ ether_string s.mgmt_mac_addr
  pub system_mac : sys.system_mac ≡ ether_string s.system_mac_addr
  pub timezone : sys.timezone ≡ some dflt_timezone
  pub software : sys.software ≡ update_sw_info globals.release blank_system.software
  pub daemon_rows : db'.daemons ≡ db.daemons ++ map daemon_row globals.manifest.daemons
  pub daemon_refs : sys.daemons ≡ places (length db.daemons) (length globals.manifest.daemons)
  pub subsystem_refs : sys.subsystems ≡ length db.subsystems ∷ []
  pub subsystem_rows :
      (row : SubsystemRow) × (db'.subsystems ≡ db.subsystems ++ row ∷ [])
      × (initial_subsystem_add names ether_string find globals.hw_desc_dir true s
            (db.interfaces ++ bridge_interface names ∷ [])
          ≡ ok (row, db'.interfaces))
  pub interface_names :
      map (λ r. r.name) db'.interfaces
      ≡ map (λ r. r.name) db.interfaces
        ++ (names.default_bridge_name ∷ map (λ p. p.name) s.interfaces)
  pub interface_rows :
      db'.interfaces
      ≡ (db.interfaces ++ bridge_interface names ∷ [])
        ++ added_rows names ether_string find s (db.interfaces ++ bridge_interface names ∷ [])
  pub cos_map :
      (rows : List MapEntry) × (sys.cos_map ≡ some rows)
      × IsFilled (set_cos_map_entry env.print) cos n 8 rows
  pub dscp_map :
      (rows : List MapEntry) × (sys.dscp_map ≡ some rows)
      × IsFilled (set_dscp_map_entry env.print) dscp m 64 rows

-- The System row and the tables in front of the subsystems
abbrev loaded_row : IdlNames → (ℕ → Bytes) → Subsystem → Bytes → Database → SystemConfig
loaded_row names ether_string s mgmt db = record blank_system {
  mgmt_intf = (names.mgmt_intf_name_key, mgmt) ∷ [];
  bridges = length db.bridges ∷ [];
  vrfs = length db.vrfs ∷ [];
  management_mac = ether_string s.mgmt_mac_addr;
  system_mac = ether_string s.system_mac_addr;
}

abbrev loaded_tables : IdlNames → Database → Database
loaded_tables names db =
    let bridged = (configure_default_bridge names blank_system db).1 in
    record bridged { vrfs = bridged.vrfs ++ default_vrf names (0 ∷ []) ∷ [] }

-- A setter of a column that holds at most one value: it reads one value, or none if the count is 0.
abbrev pub IsOptionalSetter : (ℕ → ℕ) → Type 0
IsOptionalSetter reads = (reads 0 ≡ 0) × ((n : ℕ) → reads (suc n) ≡ 1)

set_table_id-one :
    (names : IdlNames) → IsOptionalSetter names.table_id_reads → set_table_id names ≡ ok (0 ∷ [])
unfolding set_table_id
set_table_id-one names o = rw (o.1 7) refl

-- Given to a setter that reads as many values as it is told, the count 8 leaves the variable.
set_table_id-overrun :
    (names : IdlNames) → ((n : ℕ) → names.table_id_reads n ≡ n) → set_table_id names ≡ fault
unfolding set_table_id
set_table_id-overrun names o = rw (o 8) refl

-- The tables behind the subsystem
abbrev subsystem_tables : Database → SubsystemRow → List Interface → Database
subsystem_tables db row interfaces = record db {
  subsystems = db.subsystems ++ row ∷ [];
  interfaces = interfaces;
}

-- Where there is memory, an interface for management, one subsystem that is ready, as many daemons
-- as counted, defaults for QoS and ACLs, and a setter of table_id for at most one value,
-- `sysd_initial_configure` does not fault on any database. It adds the default VRF with the table 0,
-- and one System row with the management interface, both MAC addresses, the time zone UTC, the
-- version of the release file, and references to the new subsystem and to one new row for every
-- daemon of the manifest, in order; the row that `sysd_initial_subsystem_add` makes of the
-- subsystem; the interface of the default bridge and one interface for every port, under its name
-- and with the references of its split; and maps of 8 and 64 rows that start with the entries of
-- config-yaml.
pub initial_configure-IsConfigured :
    (names : IdlNames) (ether_string : ℕ → Bytes) (find : Shash → Bytes → Option ℕ)
    (globals : Globals) (allocs : Allocs) (env : QosEnv) (s : Subsystem) (mgmt country date : Bytes)
    (port_info : YamlPortInfo) (info : YamlQosInfo) (acl : YamlAclInfo)
    (cos dscp : ℕ → YamlMapEntry) (n m : ℕ) (db : Database)
    → IsLoaded globals allocs s mgmt
    → IsReady s country date port_info
    → HasDefaults env info acl cos dscp n m
    → IsOptionalSetter names.table_id_reads
    → (db' : Database) × (sys : SystemConfig) × (initial_configure names ether_string find globals
          allocs env db
        ≡ ok db')
      × IsConfigured names ether_string find globals env s mgmt cos dscp n m sys db db'
unfolding initial_configure start_row configure_default_bridge configure_default_vrf set_macs
    configure_subsystems add_subsystems configure_daemons
initial_configure-IsConfigured names ether_string find globals allocs env s mgmt country date
      port_info info acl cos dscp n m db g r h o =
    let sys = record (loaded_row names ether_string s mgmt db) {
      subsystems = length db.subsystems ∷ [];
    } in
    let table = db.interfaces ++ bridge_interface names ∷ [] in
    let (mac, _, added, named) =
      initial_subsystem_add-rows names ether_string find globals.hw_desc_dir s country date
        port_info table r in
    let row =
      subsystem_row names ether_string find globals.hw_desc_dir s (length table) country mac date
        port_info in
    let all = table ++ added_rows names ether_string find s table in
    let tables = subsystem_tables (loaded_tables names db) row all in
    let (c, d, t, limits, cf, df, run) =
      configure_daemons-returns globals allocs env s mgmt info acl cos dscp n m sys tables g h in
    let done =
      qos_row env (with_daemons globals tables sys) (with_rows globals tables) c d t limits in
    (
      finish_row
          (done, qos_tables env (with_daemons globals tables sys) (with_rows globals tables) t),
      done,
      simp (
        g.mgmt_intf,
        g.mgmt_name,
        set_table_id-one names o,
        g.one,
        g.subsystem_list,
        g.interface_list,
        added,
        run,
      ),
      record {
        system = refl;
        vrf_row = refl;
        vrf_refs = refl;
        management = refl;
        management_mac = refl;
        system_mac = refl;
        timezone = refl;
        software = refl;
        daemon_rows = refl;
        daemon_refs = ap (places (length db.daemons)) g.counted;
        subsystem_refs = refl;
        subsystem_rows = (row, refl, added);
        interface_names =
            rw
              (
                map-append (λ r. r.name) table (added_rows names ether_string find s table),
                map-append (λ r. r.name) db.interfaces (bridge_interface names ∷ []),
                named,
              )
              (append_assoc (map (λ r. r.name) db.interfaces) (names.default_bridge_name ∷ [])
                (map (λ p. p.name) s.interfaces));
        interface_rows = refl;
        cos_map = (c, refl, cf);
        dscp_map = (d, refl, df);
      },
    )
