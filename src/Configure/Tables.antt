-- ===== src/Configure/Tables.antt =====
-- The tables of the first transaction, with the System row, the globals and the other data that
-- `sysd_initial_configure` reads.
use ops_sysd.Base.{ℕ, Bool, List, [], Option, none}
use ops_sysd.Base.Int.{ℤ, pos}
use ops_sysd.Base.Text.{Bytes, codes}
use ops_sysd.Configure.Interfaces.{Pairs, Interface}
use ops_sysd.Configure.Rows.{SubsystemRow}
use ops_sysd.HwDone.{DaemonRow, SystemRow}
use ops_sysd.Manifest.{Manifest}
use ops_sysd.Qos.Column.{Smap, smap_init}
use ops_sysd.Qos.Columns.{YamlQosInfo, YamlAclInfo}
use ops_sysd.Qos.Maps.{YamlMapEntry, MapEntry}
use ops_sysd.Qos.Queues.{YamlQueueProfileEntry, QueueProfiles}
use ops_sysd.Qos.Schedules.{YamlScheduleProfileEntry, ScheduleProfiles}
use ops_sysd.Release.{SoftwareColumns}
use ops_sysd.Subsystem.{Subsystem}

abbrev pub dflt_timezone : Bytes
dflt_timezone = codes "UTC"

pub record BridgeRow : Type 0 where
  pub name : Bytes
  pub ports : List ℕ

pub record PortRow : Type 0 where
  pub name : Bytes
  pub interfaces : List ℕ

pub record VrfRow : Type 0 where
  pub name : Bytes
  pub table_id : List ℕ
  pub status : Pairs

-- A row of the System table; `hw` are cur_hw and next_hw, and `qos` is the reference of the column
-- of that name.
pub record SystemConfig : Type 0 where
  pub hw : SystemRow
  pub mgmt_intf : Pairs
  pub bridges : List ℕ
  pub vrfs : List ℕ
  pub management_mac : Bytes
  pub system_mac : Bytes
  pub subsystems : List ℕ
  pub daemons : List ℕ
  pub software : SoftwareColumns
  pub timezone : Option Bytes
  pub qos_config : Smap
  pub dscp_map : Option (List MapEntry)
  pub cos_map : Option (List MapEntry)
  pub q_profile : Option Bytes
  pub qos : Option Bytes
  pub other_info : Smap

-- The tables that the daemon writes.
pub record Database : Type 0 where
  pub systems : List SystemConfig
  pub bridges : List BridgeRow
  pub ports : List PortRow
  pub interfaces : List Interface
  pub vrfs : List VrfRow
  pub subsystems : List SubsystemRow
  pub daemons : List DaemonRow
  pub queue_profiles : QueueProfiles
  pub schedule_profiles : ScheduleProfiles

-- What config-yaml gives for the QoS and ACL defaults, and snprintf with %d.
pub record QosEnv : Type 0 where
  pub print : ℤ → Bytes
  pub strict : Bytes
  pub info : Option YamlQosInfo
  pub cos_entry : ℕ → Option YamlMapEntry
  pub cos_count : ℤ
  pub dscp_entry : ℕ → Option YamlMapEntry
  pub dscp_count : ℤ
  pub queue_entry : ℕ → Option YamlQueueProfileEntry
  pub queue_count : ℤ
  pub schedule_entry : ℕ → Option YamlScheduleProfileEntry
  pub schedule_count : ℤ
  pub acl : Option YamlAclInfo

-- The globals that main has filled, and the lines of the release file.
pub record Globals : Type 0 where
  pub manifest : Manifest
  pub subsystems : List Subsystem
  pub hw_desc_dir : Bytes
  pub release : Option (List Bytes)

-- Which of the callocs succeed; the last one is for the subsystem of that index.
pub record Allocs : Type 0 where
  pub subsystem_list : Bool
  pub daemon_list : Bool
  pub interface_list : ℕ → Bool

abbrev pub blank_system : SystemConfig
blank_system = record {
  hw = record { cur_hw = pos 0; next_hw = pos 0 };
  mgmt_intf = [];
  bridges = [];
  vrfs = [];
  management_mac = [];
  system_mac = [];
  subsystems = [];
  daemons = [];
  software = record { software_info = none; switch_version = none };
  timezone = none;
  qos_config = smap_init;
  dscp_map = none;
  cos_map = none;
  q_profile = none;
  qos = none;
  other_info = smap_init;
}
