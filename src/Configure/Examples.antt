-- ===== src/Configure/Examples.antt =====
-- A port with two subports, a subsystem and a small system, and the theorems of this part at them.
use ops_sysd.Base.{
  ℕ, zero, suc, ◌+◌, ◌≡◌, refl, true, List, [], ◌∷◌, ◌++◌, map, Option, none, some, if◌then◌else◌,
  arith,
}
use ops_sysd.Base.Decimal.{digits}
use ops_sysd.Base.Text.{Bytes, codes, str_eq}
use ops_sysd.Base.Outcome.{ok, fault}
use ops_sysd.Configure.Interfaces.{IdlNames, Interface, new_interface}
use ops_sysd.Configure.Rows.{mac_format, c_string, initial_subsystem_add}
use ops_sysd.Configure.Speeds.{
  joined, get_speeds_string, read_speeds, get_speeds_string-joined, get_speeds_string-overrun,
}
use ops_sysd.Configure.Splits.{Shash, places, set_splittable_port_info}
use ops_sysd.Configure.SplitLaws.{named_from, split_rows, set_splittable_port_info-split_rows}
use ops_sysd.Configure.SubsystemLaws.{
  IsReady, subsystem_row, added_rows, initial_subsystem_add-rows,
}
use ops_sysd.Subsystem.{YamlPortInfo, YamlPort, Subsystem, zeroed}

get_speeds_string-joined_example :
    (get_speeds_string 128 (1000 ∷ 10000 ∷ []) [] ≡ ok (joined (1000 ∷ 10000 ∷ [])))
    × (read_speeds 0 (joined (1000 ∷ 10000 ∷ [])) ≡ 1000 ∷ 10000 ∷ [])
unfolding digits
get_speeds_string-joined_example =
    get_speeds_string-joined 128 1000 (10000 ∷ []) (omega arith, (omega arith, tt)) (omega arith)

get_speeds_string-overrun_example : get_speeds_string 6 (100 ∷ 100 ∷ []) [] ≡ fault
unfolding digits
get_speeds_string-overrun_example =
    get_speeds_string-overrun 6 100 (100 ∷ []) (omega arith, (omega arith, tt)) (omega arith)

-- A lookup that gives the pair that was added first.
abbrev pub find_first : Shash → Bytes → Option ℕ
find_first [] name = none
find_first ((key, i) ∷ sh) name = if str_eq key name then some i else find_first sh name

abbrev port : YamlPort
port = record {
  name = codes "1";
  pluggable = true;
  connector = codes "QSFP";
  max_speed = 40000;
  speeds = 40000 ∷ [];
  device = 0;
  device_port = 1;
  capabilities = codes "split_4" ∷ [];
  subports = codes "1-1" ∷ [];
  parent_port = none;
}

abbrev subport : YamlPort
subport = record {
  name = codes "1-1";
  pluggable = true;
  connector = codes "QSFP";
  max_speed = 10000;
  speeds = 10000 ∷ [];
  device = 0;
  device_port = 2;
  capabilities = [];
  subports = [];
  parent_port = some (codes "1");
}

abbrev two_ports : List YamlPort
two_ports = port ∷ subport ∷ []

abbrev two_rows : List Interface
two_rows =
    record new_interface { name = codes "1" } ∷ record new_interface { name = codes "1-1" } ∷ []

set_splittable_port_info-split_rows_example :
    set_splittable_port_info find_first two_ports (places 1 2) ((new_interface ∷ []) ++ two_rows)
    ≡ ok (
        (new_interface ∷ [])
        ++ split_rows find_first (named_from 1 two_ports two_rows) two_ports two_rows)
set_splittable_port_info-split_rows_example =
    set_splittable_port_info-split_rows find_first (new_interface ∷ []) two_rows two_ports refl
      (omega arith, (omega arith, tt))

abbrev pub info : YamlPortInfo
info = record {
  number_ports = 2;
  max_port_speed = 40000;
  max_transmission_unit = 9192;
  max_lag_count = 8;
  max_lag_member_count = 8;
  l3_port_requires_internal_vlan = 0;
}

abbrev pub base : Subsystem
base = record zeroed {
  name = codes "base";
  intf_count = 2;
  intf_cmn_info = some info;
  interfaces = two_ports;
  mgmt_mac_addr = 1;
  system_mac_addr = 2;
  nxt_mac_addr = 3;
  num_free_macs = 4;
}

pub base-IsReady : IsReady base [] [] info
unfolding digits c_string
base-IsReady = record {
  country_is = refl;
  date_is = refl;
  mac_size = refl;
  info_is = refl;
  counted = refl;
  small = (
    record {
      speeds_short = (omega arith, tt);
      speeds_fit = omega arith;
      subports_fit = omega arith;
    },
    (
      record {
        speeds_short = (omega arith, tt);
        speeds_fit = omega arith;
        subports_fit = omega arith;
      },
      tt,
    ),
  );
}

-- Of a column that holds at most one value
abbrev one_at_most : ℕ → ℕ
one_at_most zero = 0
one_at_most (suc n) = 1

abbrev pub idl_names : IdlNames
idl_names = record {
  interface_type_system = codes "system";
  interface_type_internal = codes "internal";
  admin_state_down = codes "down";
  pluggable_key = codes "pluggable";
  pluggable_true = codes "true";
  pluggable_false = codes "false";
  connector_key = codes "connector";
  max_speed_key = codes "max_speed";
  speeds_key = codes "speeds";
  switch_unit_key = codes "switch_unit";
  switch_intf_id_key = codes "switch_intf_id";
  mac_addr_key = codes "mac_addr";
  bridge_key = codes "bridge";
  bridge_true = codes "true";
  admin_key = codes "admin";
  admin_up = codes "up";
  mgmt_intf_name_key = codes "name";
  default_bridge_name = codes "bridge_normal";
  default_vrf_name = codes "vrf_default";
  vrf_status_key = codes "namespace_ready";
  vrf_status_value = codes "true";
  table_id_reads = one_at_most;
}

-- One digit is enough here.
abbrev pub address : ℕ → Bytes
address n = (48 + n) ∷ []

initial_subsystem_add-rows_example :
    (mac : Bytes) × (mac_format base.fru_eeprom.base_mac_address ≡ ok mac)
    × (initial_subsystem_add idl_names address find_first (codes "/etc") true base []
        ≡ ok (
          subsystem_row idl_names address find_first (codes "/etc") base 0 [] mac [] info,
          added_rows idl_names address find_first base [],
        ))
    × (map (λ r. r.name) (added_rows idl_names address find_first base [])
        ≡ map (λ p. p.name) two_ports)
initial_subsystem_add-rows_example =
    initial_subsystem_add-rows idl_names address find_first (codes "/etc") base [] [] info []
      base-IsReady
