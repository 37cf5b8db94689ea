-- ===== src/Show/FruLines.antt =====
-- What "show system" says of a subsystem whose row the daemon has written (src/sysd_ovsdb_if.c): the two
-- programs agree on the keys of other_info.
use mathlib.Core.List.{flatten, append_assoc, append-nil}
use ops_sysd.Base.{ℕ, ◌≡◌, sym, ap, ◌∙◌, true, List, [], ◌∷◌, ◌++◌, Option}
use ops_sysd.Base.Decimal.{decimal}
use ops_sysd.Base.Text.{Bytes, codes, str_eq}
use ops_sysd.Base.Outcome.{ok, ok_inj}
use ops_sysd.Configure.Interfaces.{IdlNames, Interface}
use ops_sysd.Configure.Rows.{
  or_empty, fru_info, port_info, mac_format, SubsystemRow, initial_subsystem_add,
}
use ops_sysd.Configure.Splits.{Shash}
use ops_sysd.Configure.SubsystemLaws.{IsReady, initial_subsystem_add-rows}
use ops_sysd.Fru.Layout.{FruEeprom}
use ops_sysd.Show.Info.{or_blank, info_entry, smap_get, format_sys_output}
use ops_sysd.Subsystem.{YamlPortInfo, Subsystem}

-- An entry of the overview, and what follows its text.
pub record Entry : Type 0 where
  pub label : Bytes
  pub width : ℕ
  pub text : Bytes
  pub tail : Bytes

abbrev pub render : List Entry → Bytes
render [] = []
render (e ∷ es) = info_entry e.label e.width e.text ++ (e.tail ++ render es)

abbrev at : Bytes → ℕ → Bytes → Bytes → Entry
at label width text tail = record { label = label; width = width; text = text; tail = tail }

-- The overview: the version of the switch, the FRU data, and the counts of the interfaces. Of the
-- FRU strings those that are missing are empty.
abbrev pub overview :
    (newline : Bytes) → Option Bytes → FruEeprom → (mac date : Bytes) → YamlPortInfo → List Entry
overview newline version fru mac date info =
    at (codes "OpenSwitch Version") 30 (or_blank version) newline
    ∷ at (codes "Product Name") 30 (or_empty fru.product_name) (newline ++ newline)
    ∷ at (codes "Vendor") 30 (or_empty fru.vendor) newline
    ∷ at (codes "Platform") 30 (or_empty fru.platform_name) newline
    ∷ at (codes "Manufacturer") 20 (or_empty fru.manufacturer) newline
    ∷ at (codes "Manufacturer Date") 20 date (newline ++ newline)
    ∷ at (codes "Serial Number") 20 (or_empty fru.serial_number) []
    ∷ at (codes "Label Revision") 10 (or_empty fru.label_revision) (newline ++ newline)
    ∷ at (codes "ONIE Version") 20 (or_empty fru.onie_version) []
    ∷ at (codes "DIAG Version") 10 (or_empty fru.diag_version) newline
    ∷ at (codes "Base MAC Address") 20 mac []
    ∷ at (codes "Number of MACs") 5 (decimal fru.num_macs) newline
    ∷ at (codes "Interface Count") 20 (decimal info.number_ports) []
    ∷ at (codes "Max Interface Speed") 6 (decimal info.max_port_speed) (codes "Mbps" ++ newline)
    ∷ []

format_sys_output-overview :
    (newline : Bytes) (version : Option Bytes) (fru : FruEeprom) (country mac date : Bytes)
    (info : YamlPortInfo)
    → format_sys_output newline version (fru_info fru country mac date ++ port_info info)
      ≡ render (overview newline version fru mac date info)
unfolding format_sys_output flatten smap_get str_eq
format_sys_output-overview newline version fru country mac date info =
    simp (append_assoc, append-nil)

-- For a subsystem that is ready, "show system" prints, of the row that `sysd_initial_subsystem_add`
-- makes of it, the version of the switch, the strings of the FRU data, its address and number of
-- addresses, and the count and the greatest speed of the interfaces: no value is missing, and each
-- stands behind its label.
pub format_sys_output-fru :
    (names : IdlNames) (ether_string : ℕ → Bytes) (find : Shash → Bytes → Option ℕ)
    (newline dir : Bytes) (version : Option Bytes) (s : Subsystem) (country date : Bytes)
    (info : YamlPortInfo) (table added : List Interface) (row : SubsystemRow)
    → IsReady s country date info
    → initial_subsystem_add names ether_string find dir true s table ≡ ok (row, added)
    → (mac : Bytes) × (mac_format s.fru_eeprom.base_mac_address ≡ ok mac)
      × (format_sys_output newline version row.other_info
          ≡ render (overview newline version s.fru_eeprom mac date info))
format_sys_output-fru names ether_string find newline dir version s country date info table added
      row r e =
    let (mac, m, made, _) =
      initial_subsystem_add-rows names ether_string find dir s country date info table r in
    let same : fru_info s.fru_eeprom country mac date ++ port_info info ≡ row.other_info =
      ap (λ x. x.0.other_info) (ok_inj (sym made ∙ e)) in
    (
      mac,
      m,
      rw (← same) (format_sys_output-overview newline version s.fru_eeprom country mac date info),
    )
