-- ===== src/Startup/Examples.antt =====
-- A switch with one interface that starts, and the theorems of this part at it.
use ops_sysd.Base.{◌≡◌, refl, true, false, not, ◌&&◌, [], ◌∷◌, ◌++◌, replicate, none, some, arith}
use ops_sysd.Base.Int.{pos, negsuc}
use ops_sysd.Base.Text.{codes}
use ops_sysd.Base.Outcome.{Ensures, rc_zero}
use ops_sysd.Fru.Read.{FruEnv}
use ops_sysd.Manifest.Tree.{json_object, json_string, member, no_member}
use ops_sysd.Qos.Profiles.{int_eq}
use ops_sysd.Startup.CfgYaml.{YamlResults, cfg_yaml_init, is_complete, cfg_yaml_init-is_complete}
use ops_sysd.Startup.HwDesc.{Platform, HwDesc, find_hw_desc_files}
use ops_sysd.Startup.Link.{quoted, find_hw_desc_files-linked}
use ops_sysd.Startup.Main.{StartEnv, start}
use ops_sysd.Startup.Started.{IsStarted, start-IsStarted}
use ops_sysd.Subsystem.{YamlPortInfo, YamlPort}

-- fru.yaml is missing, and the QoS file is broken.
abbrev results : YamlResults
results = record {
  add_subsystem = pos 0;
  parse_devices = pos 0;
  parse_ports = pos 0;
  parse_fru = negsuc 1;
  fru_yaml_not_found = negsuc 1;
  parse_qos = negsuc 0;
  parse_acl = pos 0;
  init_devices = pos 0;
  fru_dev_found = true;
}

cfg_yaml_init-is_complete_example :
    ((cfg_yaml_init results true).0 ≡ is_complete results)
    × ((cfg_yaml_init results true).0 && (cfg_yaml_init results true).1
        ≡ is_complete results
          && (true && not (int_eq results.fru_yaml_not_found results.parse_fru)))
cfg_yaml_init-is_complete_example = cfg_yaml_init-is_complete results true

abbrev platform : Platform
platform = record {
  simulation = false;
  hwdesc_files_path = codes "/etc/hw";
  manufacturer = some (codes "# dmidecode 2.12\n" ∷ (quoted (codes "Accton") ++ 10 ∷ []) ∷ []);
  product = some ((quoted (codes "AS5712") ++ 10 ∷ []) ∷ []);
  exists = λ path. true;
  removes = true;
  makes_directory = true;
  links = true;
}

abbrev old_link : HwDesc
old_link = record { g_hw_desc_dir = none; link = some (codes "/old") }

find_hw_desc_files-linked_example : find_hw_desc_files platform old_link ≡ (
  rc_zero,
  record {
    g_hw_desc_dir = some (codes "/etc/hw/Accton/AS5712");
    link = some (codes "/etc/hw/Accton/AS5712");
  },
)
find_hw_desc_files-linked_example =
    find_hw_desc_files-linked platform old_link (codes "Accton") (codes "AS5712")
      (codes "# dmidecode 2.12\n" ∷ []) [] [] [] refl (refl, tt) tt refl refl (omega arith) refl
      refl

abbrev fru_device : FruEnv
fru_device = record {
  fru_yaml = false;
  fru_info = none;
  i2c_data_read = λ n. none;
  calloc_ok = true;
  sscanf_mac = λ text. [];
  rand0 = 1;
  rand1 = 2;
  rand2 = 3;
}

abbrev pub interfaces : YamlPortInfo
interfaces = record {
  number_ports = 1;
  max_port_speed = 10000;
  max_transmission_unit = 9192;
  max_lag_count = 8;
  max_lag_member_count = 8;
  l3_port_requires_internal_vlan = 0;
}

abbrev pub port : YamlPort
port = record {
  name = codes "1";
  pluggable = true;
  connector = codes "SFP_PLUS";
  max_speed = 10000;
  speeds = 10000 ∷ [];
  device = 0;
  device_port = 1;
  capabilities = [];
  subports = [];
  parent_port = none;
}

abbrev pub switch : StartEnv
switch = record {
  manifest_info = some (
      json_object (
        member (codes "daemons")
          (json_object (member (codes "ops-fand") (json_object no_member) no_member))
          (member (codes "mgmt_intf")
            (json_object (member (codes "intf") (json_string (codes "eth0")) no_member))
            no_member)));
  manifest_calloc_ok = λ n. true;
  manifest_block = replicate 16 0;
  platform = platform;
  yaml = record results { parse_fru = pos 0 };
  crc32 = λ c image. c;
  fru = fru_device;
  mac_value = λ bytes. 0;
  list_ok = true;
  block_ok = true;
  port_info = some interfaces;
  port_count = pos 1;
  port = λ i. some port;
  array_ok = true;
  release = none;
}

start-IsStarted_example : Ensures (IsStarted switch) (start switch)
start-IsStarted_example = start-IsStarted switch
