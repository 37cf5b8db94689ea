-- ===== src/Configure/Interfaces.antt =====
-- `sysd_initial_interface_add` and the rows that it fills.
use ops_sysd.Base.{ℕ, List, [], ◌∷◌, ◌++◌, map, Option, none, some, ◌==◌, if◌then◌else◌}
use ops_sysd.Base.Decimal.{decimal}
use ops_sysd.Base.Text.{Bytes, codes}
use ops_sysd.Base.Outcome.{Outcome, ok, ◌>>=◌}
use ops_sysd.Configure.Speeds.{get_speeds_string}
use ops_sysd.Subsystem.{YamlPort}

-- The strings that the headers of the schema define.
pub record IdlNames : Type 0 where
  pub interface_type_system : Bytes
  pub interface_type_internal : Bytes
  pub admin_state_down : Bytes
  pub pluggable_key : Bytes
  pub pluggable_true : Bytes
  pub pluggable_false : Bytes
  pub connector_key : Bytes
  pub max_speed_key : Bytes
  pub speeds_key : Bytes
  pub switch_unit_key : Bytes
  pub switch_intf_id_key : Bytes
  pub mac_addr_key : Bytes
  pub bridge_key : Bytes
  pub bridge_true : Bytes
  pub admin_key : Bytes
  pub admin_up : Bytes
  pub mgmt_intf_name_key : Bytes
  pub default_bridge_name : Bytes
  pub default_vrf_name : Bytes
  pub vrf_status_key : Bytes
  pub vrf_status_value : Bytes
  -- of as many values as the call says, those that the setter of table_id reads
  pub table_id_reads : ℕ → ℕ

-- An smap as it is built: smap_add puts a pair behind the others.
abbrev pub Pairs : Type 0
Pairs = List (Bytes × Bytes)

-- A row of the Interface table. A reference to a row is its place in the table.
pub record Interface : Type 0 where
  pub name : Bytes
  pub type : Bytes
  pub admin_state : Option Bytes
  pub hw_intf_info : Pairs
  pub user_config : Pairs
  pub split_parent : Option ℕ
  pub split_children : List ℕ

abbrev pub new_interface : Interface
new_interface = record {
  name = [];
  type = [];
  admin_state = none;
  hw_intf_info = [];
  user_config = [];
  split_parent = none;
  split_children = [];
}

-- The size of `buf`, which the speeds are written to.
abbrev pub speeds_size : ℕ
speeds_size = 128

-- ops-utils' ops_ether_ulong_long_to_string is `ether_string`.
module _ (names : IdlNames) (ether_string : ℕ → Bytes) where
  -- "Copy the subsystem system MAC to interface hw_info:mac_addres."
  abbrev pub mac_pair : ℕ → Pairs
  mac_pair system_mac_addr =
      if system_mac_addr == 0 then [] else (names.mac_addr_key, ether_string system_mac_addr) ∷ []

  -- hw_intf_info in the order of the calls of smap_add
  unfoldable pub hw_intf_info : ℕ → YamlPort → Bytes → Pairs
  hw_intf_info system_mac_addr port speeds =
      (names.pluggable_key, if port.pluggable then names.pluggable_true else names.pluggable_false)
      ∷ (names.connector_key, port.connector)
      ∷ (names.max_speed_key, decimal port.max_speed)
      ∷ (names.speeds_key, speeds)
      ∷ (names.switch_unit_key, decimal port.device)
      ∷ (names.switch_intf_id_key, decimal port.device_port)
      ∷ (map (λ capability. (capability, codes "true")) port.capabilities
          ++ mac_pair system_mac_addr)

  unfoldable pub initial_interface_add : ℕ → YamlPort → Outcome Interface
  unfolding hw_intf_info
  initial_interface_add system_mac_addr port = do
    speeds ← get_speeds_string speeds_size port.speeds []
    ok (record new_interface {
      name = port.name;
      type = names.interface_type_system;
      admin_state = some names.admin_state_down;
      hw_intf_info = hw_intf_info system_mac_addr port speeds;
    })
