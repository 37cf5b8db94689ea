-- ===== src/Fru/Image.antt =====
-- The image format that `sysd_process_eeprom` reads, written the other way round: how an image is
-- made from the values of its fields, and what the record holds when each field is taken over.
use ops_sysd.Base.{ℕ, ◌+◌, ◌*◌, ◌≤◌, ◌<◌, ◌≡◌, [], ◌∷◌, ◌++◌, List, some, length, drop, All}
use ops_sysd.Base.Text.{Bytes}
use ops_sysd.Fru.Layout.{
  TlvType, product_name, part_number, serial_number, num_mac, base_mac_address, manufacture_date,
  device_version, label_revision, platform_name, onie_version, manufacturer, country_code, vendor,
  diag_version, service_tag, vendor_extension, crc, code_of, FruEeprom, fru_base_mac_address_len,
}

pub record Field : Type 0 where
  pub type : TlvType
  pub value : Bytes

abbrev pub tlv_bytes : Field → Bytes
tlv_bytes t = code_of t.type ∷ length t.value ∷ t.value

abbrev pub image : List Field → Bytes
image [] = []
image (t ∷ ts) = tlv_bytes t ++ image ts

abbrev IsText : Bytes → Type 0
IsText cs = All (λ c. 0 < c) cs

-- Values that a field of the type may have in a valid image. The checksum is no such field.
abbrev pub IsValue : TlvType → Bytes → Type 0
IsValue num_mac v = (hi : ℕ) × (lo : ℕ) × (v ≡ hi ∷ lo ∷ []) × (hi < 256) × (lo < 256)
IsValue base_mac_address v = length v ≡ fru_base_mac_address_len
IsValue manufacture_date v = IsText v × (length v ≤ 19)
IsValue device_version v = (c : ℕ) × (v ≡ c ∷ [])
IsValue country_code v = IsText v × (length v ≤ 2)
IsValue vendor_extension v = Unit
IsValue crc v = ⊥
IsValue _ v = IsText v

-- A string in an array of the record: the text, its NUL, and what stood behind it before.
abbrev pub over : Bytes → Bytes → Bytes
over array v = v ++ (0 ∷ drop (length v + 1) array)

abbrev pub number : Bytes → ℕ
number (hi ∷ lo ∷ []) = hi * 256 + lo
number _ = 0

abbrev pub first : Bytes → ℕ
first [] = 0
first (c ∷ cs) = c

abbrev pub take_over : TlvType → Bytes → FruEeprom → FruEeprom
take_over product_name v f = record f { product_name = some (v ++ 0 ∷ []) }
take_over part_number v f = record f { part_number = some (v ++ 0 ∷ []) }
take_over serial_number v f = record f { serial_number = some (v ++ 0 ∷ []) }
take_over num_mac v f = record f { num_macs = number v }
take_over base_mac_address v f = record f { base_mac_address = v }
take_over manufacture_date v f = record f { manufacture_date = over f.manufacture_date v }
take_over device_version v f = record f { device_version = first v }
take_over label_revision v f = record f { label_revision = some (v ++ 0 ∷ []) }
take_over platform_name v f = record f { platform_name = some (v ++ 0 ∷ []) }
take_over onie_version v f = record f { onie_version = some (v ++ 0 ∷ []) }
take_over manufacturer v f = record f { manufacturer = some (v ++ 0 ∷ []) }
take_over country_code v f = record f { country_code = over f.country_code v }
take_over vendor v f = record f { vendor = some (v ++ 0 ∷ []) }
take_over diag_version v f = record f { diag_version = some (v ++ 0 ∷ []) }
take_over service_tag v f = record f { service_tag = some (v ++ 0 ∷ []) }
take_over vendor_extension v f = f
take_over crc v f = f

-- Later fields of one type win.
abbrev pub take_all : List Field → FruEeprom → FruEeprom
take_all [] f = f
take_all (t ∷ ts) f = take_all ts (take_over t.type t.value f)

abbrev pub IsImage : List Field → Type 0
IsImage ts = All (λ t. IsValue t.type t.value) ts
