-- ===== src/Startup/Getters.antt =====
-- The getters of src/sysd_cfg_yaml.c: what config-yaml gives, of its open handle, for the base subsystem;
-- and what the other parts take from them.
use ops_sysd.Base.{ℕ, Option}
use ops_sysd.Base.Int.{ℤ}
use ops_sysd.Base.Text.{Bytes, codes}
use ops_sysd.Configure.Tables.{QosEnv}
use ops_sysd.Qos.Columns.{YamlQosInfo, YamlAclInfo}
use ops_sysd.Qos.Maps.{YamlMapEntry}
use ops_sysd.Qos.Queues.{YamlQueueProfileEntry}
use ops_sysd.Qos.Schedules.{YamlScheduleProfileEntry}
use ops_sysd.Startup.Main.{StartEnv}
use ops_sysd.Subsystem.{YamlPort, YamlPortInfo}

abbrev pub base_subsystem : Bytes
base_subsystem = codes "base"

-- The functions of config-yaml, on a handle `H` and the name of a subsystem
pub record ConfigYaml (H : Type 0) : Type 0 where
  pub yaml_get_port_count : H → Bytes → ℤ
  pub yaml_get_port : H → Bytes → ℕ → Option YamlPort
  pub yaml_get_port_info : H → Bytes → Option YamlPortInfo
  pub yaml_get_qos_info : H → Bytes → Option YamlQosInfo
  pub yaml_get_cos_map_entry_count : H → Bytes → ℤ
  pub yaml_get_cos_map_entry : H → Bytes → ℕ → Option YamlMapEntry
  pub yaml_get_dscp_map_entry_count : H → Bytes → ℤ
  pub yaml_get_dscp_map_entry : H → Bytes → ℕ → Option YamlMapEntry
  pub yaml_get_schedule_profile_entry_count : H → Bytes → ℤ
  pub yaml_get_schedule_profile_entry : H → Bytes → ℕ → Option YamlScheduleProfileEntry
  pub yaml_get_queue_profile_entry_count : H → Bytes → ℤ
  pub yaml_get_queue_profile_entry : H → Bytes → ℕ → Option YamlQueueProfileEntry
  pub yaml_get_acl_info : H → Bytes → Option YamlAclInfo

module _ {H : Type 0} (yaml : ConfigYaml H) (cfg_yaml_handle : H) where
  abbrev pub get_port_count : ℤ
  get_port_count = yaml.yaml_get_port_count cfg_yaml_handle base_subsystem

  abbrev pub get_port_info : ℕ → Option YamlPort
  get_port_info index = yaml.yaml_get_port cfg_yaml_handle base_subsystem index

  abbrev pub get_port_subsys_info : Option YamlPortInfo
  get_port_subsys_info = yaml.yaml_get_port_info cfg_yaml_handle base_subsystem

  abbrev pub get_qos_info : Option YamlQosInfo
  get_qos_info = yaml.yaml_get_qos_info cfg_yaml_handle base_subsystem

  abbrev pub get_cos_map_entry_count : ℤ
  get_cos_map_entry_count = yaml.yaml_get_cos_map_entry_count cfg_yaml_handle base_subsystem

  abbrev pub get_cos_map_entry : ℕ → Option YamlMapEntry
  get_cos_map_entry idx = yaml.yaml_get_cos_map_entry cfg_yaml_handle base_subsystem idx

  abbrev pub get_dscp_map_entry_count : ℤ
  get_dscp_map_entry_count = yaml.yaml_get_dscp_map_entry_count cfg_yaml_handle base_subsystem

  abbrev pub get_dscp_map_entry : ℕ → Option YamlMapEntry
  get_dscp_map_entry idx = yaml.yaml_get_dscp_map_entry cfg_yaml_handle base_subsystem idx

  abbrev pub get_schedule_profile_entry_count : ℤ
  get_schedule_profile_entry_count =
      yaml.yaml_get_schedule_profile_entry_count cfg_yaml_handle base_subsystem

  abbrev pub get_schedule_profile_entry : ℕ → Option YamlScheduleProfileEntry
  get_schedule_profile_entry idx =
      yaml.yaml_get_schedule_profile_entry cfg_yaml_handle base_subsystem idx

  abbrev pub get_queue_profile_entry_count : ℤ
  get_queue_profile_entry_count =
      yaml.yaml_get_queue_profile_entry_count cfg_yaml_handle base_subsystem

  abbrev pub get_queue_profile_entry : ℕ → Option YamlQueueProfileEntry
  get_queue_profile_entry idx = yaml.yaml_get_queue_profile_entry cfg_yaml_handle base_subsystem idx

  abbrev pub get_acl_info : Option YamlAclInfo
  get_acl_info = yaml.yaml_get_acl_info cfg_yaml_handle base_subsystem

  -- What the QoS and ACL parts are given
  abbrev pub qos_env : (print : ℤ → Bytes) (strict : Bytes) → QosEnv
  qos_env print strict = record {
    print = print;
    strict = strict;
    info = get_qos_info;
    cos_entry = get_cos_map_entry;
    cos_count = get_cos_map_entry_count;
    dscp_entry = get_dscp_map_entry;
    dscp_count = get_dscp_map_entry_count;
    queue_entry = get_queue_profile_entry;
    queue_count = get_queue_profile_entry_count;
    schedule_entry = get_schedule_profile_entry;
    schedule_count = get_schedule_profile_entry_count;
    acl = get_acl_info;
  }

  -- What `sysd_get_interface_info` is given
  abbrev pub with_ports : StartEnv → StartEnv
  with_ports env = record env {
    port_info = get_port_subsys_info;
    port_count = get_port_count;
    port = get_port_info;
  }
