-- ===== src/Subsystem/Examples.antt =====
-- A base subsystem from fru.yaml, its interfaces, and the theorems of this part at it.
use ops_sysd.Base.{ℕ, ◌≡◌, refl, true, [], ◌∷◌, Option, none, some, arith, get_elem?}
use ops_sysd.Base.Int.{pos}
use ops_sysd.Base.Text.{Bytes, codes}
use ops_sysd.Base.Outcome.{Outcome, ok, fault, no_fuel, Rc, rc_zero}
use ops_sysd.Fru.Layout.{FruEeprom, cleared}
use ops_sysd.Fru.Eeprom.{Crc32}
use ops_sysd.Fru.Read.{YamlFruInfo, FruEnv, get_fru_info, read_yaml, read_fru_eeprom}
use ops_sysd.Subsystem.{
  YamlPortInfo, YamlPort, Subsystem, zeroed, store_base, take_mgmt_mac, take_system_mac, after_fru,
  get_subsystem_info, get_interface_info, get_ports, add_port, store_ports,
}
use ops_sysd.Subsystem.Macs.{IsSplit, get_subsystem_info-IsSplit}

abbrev no_crc : Crc32
no_crc c _ = c

abbrev last_byte : Bytes → ℕ
last_byte [] = 0
last_byte (c ∷ []) = c
last_byte (c ∷ cs) = last_byte cs

abbrev yaml_info : YamlFruInfo
yaml_info = record {
  country_code = codes "US";
  diag_version = none;
  label_revision = none;
  base_mac_address = codes "70:72:cf";
  manufacture_date = codes "01/01/2015 00:00:00";
  manufacturer = some (codes "ops");
  num_macs = 5;
  onie_version = none;
  part_number = none;
  platform_name = none;
  product_name = some (codes "X5");
  serial_number = none;
  service_tag = none;
  vendor = none;
}

abbrev yaml_device : FruEnv
yaml_device = record {
  fru_yaml = true;
  fru_info = some yaml_info;
  i2c_data_read = λ n. none;
  calloc_ok = true;
  sscanf_mac = λ text. 112 ∷ 114 ∷ 207 ∷ [];
  rand0 = 1;
  rand1 = 2;
  rand2 = 300;
}

abbrev eeprom_of : Outcome (Rc × FruEeprom) → FruEeprom
eeprom_of (ok (rc, f)) = f
eeprom_of fault = cleared
eeprom_of no_fuel = cleared

abbrev base : Subsystem
base = store_base last_byte (eeprom_of (get_fru_info yaml_device cleared))

-- The fourth number of a whole address is stored past the end of the array.
whole_address :
    get_fru_info (record yaml_device { sscanf_mac = λ text. 1 ∷ 2 ∷ 3 ∷ 4 ∷ 5 ∷ 6 ∷ [] }) cleared
    ≡ fault
unfolding get_fru_info
whole_address = refl

get_base : get_subsystem_info no_crc yaml_device last_byte true true ≡ ok (some base)
unfolding get_subsystem_info read_fru_eeprom read_yaml get_fru_info after_fru
get_base = refl

base_mac : last_byte base.fru_eeprom.base_mac_address ≡ 44
unfolding store_base take_mgmt_mac take_system_mac get_fru_info
base_mac = refl

get_subsystem_info-IsSplit_example :
    (read_fru_eeprom no_crc yaml_device cleared ≡ ok (rc_zero, base.fru_eeprom))
    × IsSplit (last_byte base.fru_eeprom.base_mac_address) base.fru_eeprom.num_macs base
get_subsystem_info-IsSplit_example =
    get_subsystem_info-IsSplit no_crc yaml_device last_byte true true base get_base
      (omega (arith, base_mac))

abbrev card_ports : YamlPortInfo
card_ports = record {
  number_ports = 2;
  max_port_speed = 40000;
  max_transmission_unit = 9216;
  max_lag_count = 8;
  max_lag_member_count = 8;
  l3_port_requires_internal_vlan = 1;
}

abbrev port_1 : YamlPort
port_1 = record {
  name = codes "1";
  pluggable = true;
  connector = codes "SFP_PLUS";
  max_speed = 10000;
  speeds = 1000 ∷ 10000 ∷ [];
  device = 0;
  device_port = 1;
  capabilities = [];
  subports = [];
  parent_port = none;
}

abbrev ports : ℕ → Option YamlPort
ports i = get_elem? (port_1 ∷ record port_1 { name = codes "2"; device_port = 2 } ∷ []) i

abbrev with_ports : Subsystem
with_ports = record zeroed {
  intf_count = 2;
  intf_cmn_info = some card_ports;
  interfaces = port_1 ∷ record port_1 { name = codes "2"; device_port = 2 } ∷ [];
}

get_with_ports : get_interface_info (some card_ports) (pos 2) ports true zeroed ≡ some with_ports
unfolding get_interface_info get_ports add_port store_ports
get_with_ports = refl
