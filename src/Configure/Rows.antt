-- ===== src/Configure/Rows.antt =====
-- The rows of the subsystems, and the strings of their column other_info: from
-- `sysd_initial_subsystem_add` down.
use ops_sysd.Base.{
  ℕ, zero, suc, ◌+◌, ◌/◌, ◌%◌, Bool, true, false, List, [], ◌∷◌, ◌++◌, Option, none, some, ◌==◌,
  ltb, if◌then◌else◌, length, take,
}
use ops_sysd.Base.Decimal.{decimal}
use ops_sysd.Base.Text.{Bytes, codes}
use ops_sysd.Base.Outcome.{Outcome, ok, fault, ◌>>=◌}
use ops_sysd.Configure.Interfaces.{IdlNames, Pairs, Interface, initial_interface_add}
use ops_sysd.Configure.Splits.{Shash, places, set_splittable_port_info}
use ops_sysd.Fru.Layout.{FruEeprom}
use ops_sysd.Subsystem.{YamlPortInfo, YamlPort, Subsystem}

abbrev pub dflt_asset_tag : Bytes
dflt_asset_tag = codes "OpenSwitch asset tag"

-- The string in an array: up to the NUL, which has to be there.
unfoldable pub c_string : Bytes → Outcome Bytes
c_string [] = fault
c_string (c ∷ cs) = let rest = c_string cs >>= λ s. ok (c ∷ s) in if c == 0 then ok [] else rest

-- %02x of a byte
abbrev pub hex_digit : ℕ → ℕ
hex_digit n = if ltb n 10 then 48 + n else 87 + n

abbrev pub hex_byte : ℕ → Bytes
hex_byte n = hex_digit (n / 16) ∷ hex_digit (n % 16) ∷ []

abbrev colon : Bytes → Bytes
colon rest = 58 ∷ rest

-- SYSD_MAC_FORMAT reads six bytes.
unfoldable pub mac_format : Bytes → Outcome Bytes
mac_format (a ∷ b ∷ c ∷ d ∷ e ∷ f ∷ rest) = ok (
    hex_byte a
    ++ colon (
        hex_byte b
        ++ colon (hex_byte c ++ colon (hex_byte d ++ colon (hex_byte e ++ colon (hex_byte f))))))
mac_format _ = fault

-- %c, where a NUL ends the string
abbrev pub char_text : ℕ → Bytes
char_text c = if c % 256 == 0 then [] else c % 256 ∷ []

-- x ? : ""
abbrev pub or_empty : Option Bytes → Bytes
or_empty none = []
or_empty (some text) = text

abbrev pub fru_info : FruEeprom → (country mac date : Bytes) → Pairs
fru_info fru country mac date =
    (codes "country_code", country)
    ∷ (codes "device_version", char_text fru.device_version)
    ∷ (codes "diag_version", or_empty fru.diag_version)
    ∷ (codes "label_revision", or_empty fru.label_revision)
    ∷ (codes "base_mac_address", mac)
    ∷ (codes "number_of_macs", decimal fru.num_macs)
    ∷ (codes "manufacturer", or_empty fru.manufacturer)
    ∷ (codes "manufacture_date", date)
    ∷ (codes "onie_version", or_empty fru.onie_version)
    ∷ (codes "part_number", or_empty fru.part_number)
    ∷ (codes "Product Name", or_empty fru.product_name)
    ∷ (codes "platform_name", or_empty fru.platform_name)
    ∷ (codes "serial_number", or_empty fru.serial_number)
    ∷ (codes "vendor", or_empty fru.vendor)
    ∷ []

abbrev pub port_info : YamlPortInfo → Pairs
port_info info =
    (codes "interface_count", decimal info.number_ports)
    ∷ (codes "max_interface_speed", decimal info.max_port_speed)
    ∷ (codes "max_transmission_unit", decimal info.max_transmission_unit)
    ∷ (codes "max_bond_count", decimal info.max_lag_count)
    ∷ (codes "max_bond_member_count", decimal info.max_lag_member_count)
    ∷ (codes "l3_port_requires_internal_vlan", decimal info.l3_port_requires_internal_vlan)
    ∷ []

unfoldable pub other_info : FruEeprom → Option YamlPortInfo → Outcome Pairs
unfolding c_string mac_format
other_info fru none = fault
other_info fru (some info) = do
  country ← c_string fru.country_code
  mac ← mac_format fru.base_mac_address
  date ← c_string fru.manufacture_date
  ok (fru_info fru country mac date ++ port_info info)

-- A row of the Subsystem table.
pub record SubsystemRow : Type 0 where
  pub name : Bytes
  pub asset_tag_number : Bytes
  pub hw_desc_dir : Bytes
  pub other_info : Pairs
  pub next_mac_address : Option Bytes
  pub macs_remaining : ℕ
  pub interfaces : List ℕ

module _ (names : IdlNames) (ether_string : ℕ → Bytes) (find : Shash → Bytes → Option ℕ) where
  -- The loop over subsys_ptr->interfaces
  unfoldable pub add_interfaces : ℕ → ℕ → List YamlPort → List Interface → Outcome (List Interface)
  unfolding initial_interface_add
  add_interfaces mac zero ports table = ok table
  add_interfaces mac (suc left) [] table = fault
  add_interfaces mac (suc left) (port ∷ ports) table = do
    row ← initial_interface_add names ether_string mac port
    add_interfaces mac left ports (table ++ row ∷ [])

  -- The row, and the Interface table with the rows of the subsystem; `array_ok` says whether calloc
  -- gives the array of references.
  unfoldable pub initial_subsystem_add :
      Bytes → Bool → Subsystem → List Interface → Outcome (SubsystemRow × List Interface)
  unfolding other_info add_interfaces set_splittable_port_info
  initial_subsystem_add hw_desc_dir array_ok s table = do
    info ← other_info s.fru_eeprom s.intf_cmn_info
    finish array_ok (record {
      name = s.name;
      asset_tag_number = dflt_asset_tag;
      hw_desc_dir = hw_desc_dir;
      other_info = info;
      next_mac_address = none;
      macs_remaining = 0;
      interfaces = [];
    })
    where
      finish : Bool → SubsystemRow → Outcome (SubsystemRow × List Interface)
      finish false row = ok (row, table)
      finish true row = do
        added ← add_interfaces s.system_mac_addr s.intf_count s.interfaces table
        let refs = places (length table) s.intf_count
        split ← set_splittable_port_info find (take s.intf_count s.interfaces) refs added
        ok (
          record row {
            next_mac_address = some (ether_string s.nxt_mac_addr);
            macs_remaining = s.num_free_macs;
            interfaces = refs;
          },
          split,
        )
