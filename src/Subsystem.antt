-- ===== src/Subsystem.antt =====
-- src/sysd.c `sysd_get_subsystem_info` and `sysd_get_interface_info`, over the record of
-- include/sysd.h.in. There is one subsystem, the base; the arrays that hold it have one element.
pub mod Macs
pub mod Ports
mod Examples
use ops_sysd.Base.{
  ℕ, zero, suc, ◌+◌, ◌-◌, ◌%◌, ◌^◌, Bool, true, false, not, List, [], ◌∷◌, Option, none, some, ltb,
  if◌then◌else◌,
}
use ops_sysd.Base.Int.{ℤ, pos, negsuc, is_positive}
use ops_sysd.Base.Text.{Bytes, codes}
use ops_sysd.Base.Outcome.{Outcome, ok, fault, ◌>>=◌, Rc, rc_zero, rc_minus_one}
use ops_sysd.Fru.Layout.{FruEeprom, cleared}
use ops_sysd.Fru.Eeprom.{Crc32}
use ops_sysd.Fru.Read.{FruEnv, read_fru_eeprom}

-- The members of config-yaml's YamlPortInfo and YamlPort that the daemon reads.
pub record YamlPortInfo : Type 0 where
  pub number_ports : ℕ
  pub max_port_speed : ℕ
  pub max_transmission_unit : ℕ
  pub max_lag_count : ℕ
  pub max_lag_member_count : ℕ
  pub l3_port_requires_internal_vlan : ℕ

pub record YamlPort : Type 0 where
  pub name : Bytes
  pub pluggable : Bool
  pub connector : Bytes
  pub max_speed : ℕ
  pub speeds : List ℕ
  pub device : ℕ
  pub device_port : ℕ
  pub capabilities : List Bytes
  pub subports : List Bytes
  pub parent_port : Option Bytes

-- sysd_subsystem_t
pub record Subsystem : Type 0 where
  pub name : Bytes
  pub type : Bytes
  pub valid : Bool
  pub intf_count : ℕ
  pub intf_cmn_info : Option YamlPortInfo
  pub interfaces : List YamlPort
  pub fru_eeprom : FruEeprom
  -- uint64_t
  pub nxt_mac_addr : ℕ
  pub num_free_macs : ℕ
  -- uint64_t
  pub mgmt_mac_addr : ℕ
  -- uint64_t
  pub system_mac_addr : ℕ

abbrev pub sysd_base_subsystem : Bytes
sysd_base_subsystem = codes "base"

abbrev pub sysd_subsystem_type_system : Bytes
sysd_subsystem_type_system = codes "system"

-- What the two callocs leave.
abbrev pub zeroed : Subsystem
zeroed = record {
  name = [];
  type = [];
  valid = false;
  intf_count = 0;
  intf_cmn_info = none;
  interfaces = [];
  fru_eeprom = cleared;
  nxt_mac_addr = 0;
  num_free_macs = 0;
  mgmt_mac_addr = 0;
  system_mac_addr = 0;
}

-- "Save first MAC as the mgmt i/f MAC for the system"
unfoldable pub take_mgmt_mac : Subsystem → Subsystem
take_mgmt_mac s =
    if ltb 0 s.num_free_macs
    then record s {
      mgmt_mac_addr = s.nxt_mac_addr;
      num_free_macs = s.num_free_macs - 1;
      nxt_mac_addr = (s.nxt_mac_addr + 1) % 2 ^ 64;
    }
    else s

-- "Save second MAC as the system MAC"
unfoldable pub take_system_mac : Subsystem → Subsystem
take_system_mac s =
    if ltb 0 s.num_free_macs
    then record s {
      system_mac_addr = s.nxt_mac_addr;
      num_free_macs = s.num_free_macs - 1;
      nxt_mac_addr = (s.nxt_mac_addr + 1) % 2 ^ 64;
    }
    else s

-- From "Store information about BASE subsystem." on.
unfoldable pub store_base : (Bytes → ℕ) → FruEeprom → Subsystem
unfolding take_mgmt_mac take_system_mac
store_base mac_value fru = take_system_mac (
    take_mgmt_mac (record zeroed {
      name = sysd_base_subsystem;
      type = sysd_subsystem_type_system;
      fru_eeprom = fru;
      num_free_macs = fru.num_macs;
      nxt_mac_addr = mac_value fru.base_mac_address;
    }))

-- `none` is the return of -1.
unfoldable pub after_fru : (Bytes → ℕ) → Rc × FruEeprom → Option Subsystem
after_fru mac_value (rc_zero, fru) = some (store_base mac_value fru)
after_fru mac_value (rc_minus_one, fru) = none

-- ops-utils' ops_char_array_to_ulong_long(array, ETH_ALEN) is `mac_value`; `list_ok` and
-- `block_ok` say whether the two callocs succeed.
module _ (crc32 : Crc32) (env : FruEnv) (mac_value : Bytes → ℕ) where
  unfoldable pub get_subsystem_info : Bool → Bool → Outcome (Option Subsystem)
  unfolding after_fru
  get_subsystem_info list_ok block_ok =
      if not list_ok
      then ok none
      else if not block_ok
      then ok none
      else do read ← read_fru_eeprom crc32 env cleared; ok (after_fru mac_value read)

-- One interface in front of those that follow; a NULL makes the whole list fail.
unfoldable pub add_port : Option YamlPort → Option (List YamlPort) → Option (List YamlPort)
add_port none ps = none
add_port (some p) none = none
add_port (some p) (some ps) = some (p ∷ ps)

-- "Get info for each interface.": the ports from `idx`, `left` of them.
unfoldable pub get_ports : (ℕ → Option YamlPort) → ℕ → ℕ → Option (List YamlPort)
unfolding add_port
get_ports port idx zero = some []
get_ports port idx (suc left) = add_port (port idx) (get_ports port (idx + 1) left)

-- The end of `sysd_get_interface_info`.
unfoldable pub store_ports :
    ℕ → YamlPortInfo → Subsystem → Option (List YamlPort) → Option Subsystem
store_ports count info s none = none
store_ports count info s (some ps) =
    some (record s { intf_count = count; intf_cmn_info = some info; interfaces = ps })

-- config-yaml's yaml_get_port_info, yaml_get_port_count and yaml_get_port, NULL being `none`;
-- `array_ok` says whether calloc succeeds.
unfoldable pub get_interface_info :
    Option YamlPortInfo → ℤ → (ℕ → Option YamlPort) → Bool → Subsystem → Option Subsystem
unfolding store_ports
get_interface_info none count port array_ok s = none
get_interface_info (some info) (negsuc n) port array_ok s = none
get_interface_info (some info) (pos zero) port array_ok s = none
get_interface_info (some info) (pos (suc n)) port array_ok s =
    if not array_ok then none else store_ports (suc n) info s (get_ports port 0 (suc n))
