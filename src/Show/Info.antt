-- ===== src/Show/Info.antt =====
-- `format_sys_output`: what is known of the subsystem, with a blank where a value is missing.
use mathlib.Core.List.{flatten}
use ops_sysd.Base.{ℕ, [], ◌∷◌, ◌++◌, Option, none, some, if◌then◌else◌}
use ops_sysd.Base.Printf.{pad_right}
use ops_sysd.Base.Text.{Bytes, codes, str_eq}
use ops_sysd.Configure.Interfaces.{Pairs}

-- smap_get
unfoldable pub smap_get : Pairs → Bytes → Option Bytes
smap_get [] key = none
smap_get ((key', value) ∷ pairs) key = if str_eq key' key then some value else smap_get pairs key

-- buf ? buf : " "
abbrev pub or_blank : Option Bytes → Bytes
or_blank none = codes " "
or_blank (some text) = text

-- vty_out(vty, "%-20s%s%-Ns", label, ": ", text)
abbrev pub info_entry : (label : Bytes) (width : ℕ) (text : Bytes) → Bytes
info_entry label width text = pad_right 20 label ++ (codes ": " ++ pad_right width text)

-- The same for the value of a key
abbrev pub known : Pairs → (label : Bytes) (width : ℕ) (key : Bytes) → Bytes
unfolding smap_get
known info label width key = info_entry label width (or_blank (smap_get info key))

-- The calls of vty_out, one for each key, in order
unfoldable pub format_sys_output :
    (newline : Bytes) → (switch_version : Option Bytes) → Pairs → Bytes
unfolding flatten
format_sys_output newline switch_version info = flatten (
    info_entry (codes "OpenSwitch Version") 30 (or_blank switch_version)
    ∷ newline
    ∷ known info (codes "Product Name") 30 (codes "Product Name")
    ∷ newline
    ∷ newline
    ∷ known info (codes "Vendor") 30 (codes "vendor")
    ∷ newline
    ∷ known info (codes "Platform") 30 (codes "platform_name")
    ∷ newline
    ∷ known info (codes "Manufacturer") 20 (codes "manufacturer")
    ∷ newline
    ∷ known info (codes "Manufacturer Date") 20 (codes "manufacture_date")
    ∷ newline
    ∷ newline
    ∷ known info (codes "Serial Number") 20 (codes "serial_number")
    ∷ known info (codes "Label Revision") 10 (codes "label_revision")
    ∷ newline
    ∷ newline
    ∷ known info (codes "ONIE Version") 20 (codes "onie_version")
    ∷ known info (codes "DIAG Version") 10 (codes "diag_version")
    ∷ newline
    ∷ known info (codes "Base MAC Address") 20 (codes "base_mac_address")
    ∷ known info (codes "Number of MACs") 5 (codes "number_of_macs")
    ∷ newline
    ∷ known info (codes "Interface Count") 20 (codes "interface_count")
    ∷ known info (codes "Max Interface Speed") 6 (codes "max_interface_speed")
    ∷ codes "Mbps"
    ∷ newline
    ∷ [])
