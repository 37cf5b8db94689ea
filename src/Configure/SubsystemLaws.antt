-- ===== src/Configure/SubsystemLaws.antt =====
-- The rows of one subsystem and of its interfaces, as the first configuration leaves them.
use mathlib.Core.List.{append_assoc, append-nil}
use ops_sysd.Base.{
  ℕ, ◌<◌, ◌≤◌, ◌≡◌, refl, ap, ◌∙◌, true, List, [], ◌∷◌, ◌++◌, map, Option, none, some, Option-cases,
  inl, inr, length, length-map, take_whole, All, arith,
}
use ops_sysd.Base.Text.{Bytes}
use ops_sysd.Base.Outcome.{ok}
use ops_sysd.Configure.Interfaces.{
  IdlNames, Interface, new_interface, speeds_size, hw_intf_info, initial_interface_add,
}
use ops_sysd.Configure.Rows.{
  dflt_asset_tag, c_string, mac_format, fru_info, port_info, other_info, SubsystemRow,
  add_interfaces, initial_subsystem_add,
}
use ops_sysd.Configure.Speeds.{
  IsShort, joined, get_speeds_string, get_speeds_string-joined, add_speeds,
}
use ops_sysd.Configure.Splits.{Shash, places, sysd_max_split_ports}
use ops_sysd.Configure.SplitLaws.{
  named_from, split_parent_of, split_children_of, split_rows, set_splittable_port_info-split_rows,
}
use ops_sysd.Subsystem.{YamlPortInfo, YamlPort, Subsystem}

-- Speeds that fit into the string, and no more subports than the array holds.
pub record IsSmall (port : YamlPort) : Type 0 where
  pub speeds_short : All IsShort port.speeds
  pub speeds_fit : length (joined port.speeds) < speeds_size
  pub subports_fit : length port.subports ≤ sysd_max_split_ports

-- The strings of the FRU data that the row gets, and the interfaces that the count announces.
pub record IsReady (s : Subsystem) (country date : Bytes) (info : YamlPortInfo) : Type 0 where
  pub country_is : c_string s.fru_eeprom.country_code ≡ ok country
  pub date_is : c_string s.fru_eeprom.manufacture_date ≡ ok date
  pub mac_size : length s.fru_eeprom.base_mac_address ≡ 6
  pub info_is : s.intf_cmn_info ≡ some info
  pub counted : s.intf_count ≡ length s.interfaces
  pub small : All IsSmall s.interfaces

speeds-joined :
    (port : YamlPort)
    → IsSmall port
    → get_speeds_string speeds_size port.speeds [] ≡ ok (joined port.speeds)
unfolding get_speeds_string add_speeds
speeds-joined port small = go port.speeds small.speeds_short small.speeds_fit
  where
    go :
        (speeds : List ℕ)
        → All IsShort speeds
        → length (joined speeds) < speeds_size
        → get_speeds_string speeds_size speeds [] ≡ ok (joined speeds)
    go [] h fits = refl
    go (n ∷ ns) h fits = (get_speeds_string-joined speeds_size n ns h fits).0

mac_format-six : (mac : Bytes) → length mac ≡ 6 → (text : Bytes) × (mac_format mac ≡ ok text)
unfolding mac_format
mac_format-six (a ∷ b ∷ c ∷ d ∷ e ∷ f ∷ []) h = (_, refl)
mac_format-six (a ∷ b ∷ c ∷ d ∷ e ∷ f ∷ g ∷ rest) h = (_, refl)
mac_format-six _ h = absurd (omega (arith, h))

module _ (names : IdlNames) (ether_string : ℕ → Bytes) where
  -- The row of a port, before the references
  abbrev pub interface_row : ℕ → YamlPort → Interface
  interface_row mac port = record new_interface {
    name = port.name;
    type = names.interface_type_system;
    admin_state = some names.admin_state_down;
    hw_intf_info = hw_intf_info names ether_string mac port (joined port.speeds);
  }

module _ (names : IdlNames) (ether_string : ℕ → Bytes) (find : Shash → Bytes → Option ℕ) where
  add_interfaces-rows :
      (mac : ℕ) (ports : List YamlPort) (table : List Interface)
      → All IsSmall ports
      → add_interfaces names ether_string find mac (length ports) ports table
        ≡ ok (table ++ map (interface_row names ether_string mac) ports)
  unfolding add_interfaces initial_interface_add
  add_interfaces-rows mac [] table h = rw (append-nil table) refl
  add_interfaces-rows mac (port ∷ ports) table (small, h) =
      rw
        (
          speeds-joined port small,
          add_interfaces-rows mac ports (table ++ interface_row names ether_string mac port ∷ []) h,
          append_assoc table (interface_row names ether_string mac port ∷ [])
              (map (interface_row names ether_string mac) ports),
        )
        refl

  -- The row of the Subsystem table
  abbrev pub subsystem_row :
      (dir : Bytes) (s : Subsystem) (place : ℕ) (country mac date : Bytes) (info : YamlPortInfo)
      → SubsystemRow
  subsystem_row dir s place country mac date info = record {
    name = s.name;
    asset_tag_number = dflt_asset_tag;
    hw_desc_dir = dir;
    other_info = fru_info s.fru_eeprom country mac date ++ port_info info;
    next_mac_address = some (ether_string s.nxt_mac_addr);
    macs_remaining = s.num_free_macs;
    interfaces = places place (length s.interfaces);
  }

  name-split_children_of :
      (sh : Shash) (names : List Bytes) (row : Interface)
      → (split_children_of find sh names row).name ≡ row.name
  name-split_children_of sh [] row = refl
  name-split_children_of sh (name ∷ names) row = refl

  name-split_parent_of :
      (sh : Shash) (parent : Option Bytes) (row : Interface)
      → (split_parent_of find sh parent row).name ≡ row.name
  name-split_parent_of sh none row = refl
  name-split_parent_of sh (some name) row = elim (Option-cases (find sh name)) [
    | inl e ↦ rw e refl
    | inr (i, e) ↦ rw e refl
  ]

  name-split_rows :
      (sh : Shash) (ports : List YamlPort) (rows : List Interface)
      → length rows ≡ length ports
      → map (λ r. r.name) (split_rows find sh ports rows) ≡ map (λ r. r.name) rows
  name-split_rows sh [] rows l = refl
  name-split_rows sh (port ∷ ports) [] l = absurd (omega (arith, l))
  name-split_rows sh (port ∷ ports) (row ∷ rows) l =
      rw
        (
          name-split_children_of sh port.subports (split_parent_of find sh port.parent_port row),
          name-split_parent_of sh port.parent_port row,
          name-split_rows sh ports rows (omega (arith, l)),
        )
        refl

  name-interface_row :
      (mac : ℕ) (ports : List YamlPort)
      → map (λ r. r.name) (map (interface_row names ether_string mac) ports)
        ≡ map (λ p. p.name) ports
  name-interface_row mac [] = refl
  name-interface_row mac (port ∷ ports) = ap (◌∷◌ port.name) (name-interface_row mac ports)

  subports_fit-All :
      (ports : List YamlPort)
      → All IsSmall ports
      → All (λ p. length p.subports ≤ sysd_max_split_ports) ports
  subports_fit-All [] h = tt
  subports_fit-All (p ∷ ports) (small, h) = (small.subports_fit, subports_fit-All ports h)

  -- The interfaces of a subsystem as they are added behind a table
  abbrev pub added_rows : Subsystem → List Interface → List Interface
  added_rows s table =
      let made = map (interface_row names ether_string s.system_mac_addr) s.interfaces in
      split_rows find (named_from (length table) s.interfaces made) s.interfaces made

  -- If calloc gives the array, and the subsystem is ready (its dates and codes end in a NUL, its address
  -- has six bytes, the information on its interfaces is there, they are as many as counted, and each
  -- has speeds that fit into the string and at most four subports): nothing faults. The row of the
  -- subsystem has the strings of its FRU data and refers to the new rows of the Interface table, which
  -- follow those that were there, one for each interface, in order and under its name.
  pub initial_subsystem_add-rows :
      (dir : Bytes) (s : Subsystem) (country date : Bytes) (info : YamlPortInfo)
      (table : List Interface)
      → IsReady s country date info
      → (mac : Bytes) × (mac_format s.fru_eeprom.base_mac_address ≡ ok mac)
        × (initial_subsystem_add names ether_string find dir true s table
            ≡ ok (
              subsystem_row dir s (length table) country mac date info,
              table ++ added_rows s table,
            ))
        × (map (λ r. r.name) (added_rows s table) ≡ map (λ p. p.name) s.interfaces)
  unfolding initial_subsystem_add other_info
  initial_subsystem_add-rows dir s country date info table r =
      let (mac, m) = mac_format-six s.fru_eeprom.base_mac_address r.mac_size in
      let made = map (interface_row names ether_string s.system_mac_addr) s.interfaces in
      let n : length made ≡ length s.interfaces = length-map _ s.interfaces in
      let whole = take_whole s.interfaces (length s.interfaces) (omega arith) in
      let added = add_interfaces-rows s.system_mac_addr s.interfaces table r.small in
      let split =
        set_splittable_port_info-split_rows find table made s.interfaces n
          (subports_fit-All s.interfaces r.small) in
      (
        mac,
        m,
        simp (r.info_is, r.country_is, m, r.date_is, r.counted, added, whole, split),
        name-split_rows (named_from (length table) s.interfaces made) s.interfaces made n
            ∙ name-interface_row s.system_mac_addr s.interfaces,
      )
