-- ===== src/Fru/Layout.antt =====
-- include/sysd_fru.h: the FRU EEPROM record and the type codes of its TLVs. The byte image is a
-- list of numbers below 256; a `char *` field is the heap block that it points to, or NULL.
use ops_sysd.Base.{
  ℕ, ◌+◌, ◌*◌, ◌^◌, ◌<◌, ◌≡◌, refl, Option, none, some, ◌==◌, if◌then◌else◌, length, replicate,
  bit_or,
}
use ops_sysd.Base.Text.{Bytes}

abbrev pub supported_ocp_fru_eeprom_version : ℕ
supported_ocp_fru_eeprom_version = 1

abbrev pub fru_country_code_len : ℕ
fru_country_code_len = 2

abbrev pub fru_base_mac_address_len : ℕ
fru_base_mac_address_len = 6

abbrev pub fru_manufacture_date_len : ℕ
fru_manufacture_date_len = 19

-- sizeof(fru_header_t): id[8], header_version, total_length[2], all of them bytes.
abbrev pub fru_header_size : ℕ
fru_header_size = 11

-- sizeof(fru_tlv->length) + sizeof(fru_tlv->code)
abbrev pub fru_tlv_header_size : ℕ
fru_tlv_header_size = 2

-- The TLV types that `sysd_process_eeprom` knows.
pub data TlvType : Type 0 where
  product_name part_number serial_number num_mac base_mac_address manufacture_date : TlvType
  device_version label_revision platform_name onie_version manufacturer country_code : TlvType
  vendor diag_version service_tag vendor_extension crc : TlvType

abbrev pub code_of : TlvType → ℕ
code_of product_name = 0x21
code_of part_number = 0x22
code_of serial_number = 0x23
code_of num_mac = 0x2a
code_of base_mac_address = 0x24
code_of manufacture_date = 0x25
code_of device_version = 0x26
code_of label_revision = 0x27
code_of platform_name = 0x28
code_of onie_version = 0x29
code_of manufacturer = 0x2b
code_of country_code = 0x2c
code_of vendor = 0x2d
code_of diag_version = 0x2e
code_of service_tag = 0x2f
code_of vendor_extension = 0xfd
code_of crc = 0xfe

-- The labels of the `switch`, in its order; `none` is `default`, with 0x00 and 0xff.
unfoldable pub decode : ℕ → Option TlvType
decode c =
    if c == code_of product_name
    then some product_name
    else if c == code_of part_number
    then some part_number
    else if c == code_of serial_number
    then some serial_number
    else if c == code_of num_mac
    then some num_mac
    else if c == code_of base_mac_address
    then some base_mac_address
    else if c == code_of manufacture_date
    then some manufacture_date
    else if c == code_of device_version
    then some device_version
    else if c == code_of label_revision
    then some label_revision
    else if c == code_of platform_name
    then some platform_name
    else if c == code_of onie_version
    then some onie_version
    else if c == code_of manufacturer
    then some manufacturer
    else if c == code_of country_code
    then some country_code
    else if c == code_of vendor
    then some vendor
    else if c == code_of diag_version
    then some diag_version
    else if c == code_of service_tag
    then some service_tag
    else if c == code_of vendor_extension
    then some vendor_extension
    else if c == code_of crc
    then some crc
    else none

pub decode-code_of : (t : TlvType) → decode (code_of t) ≡ some t
unfolding decode
decode-code_of product_name = refl
decode-code_of _ = refl

-- fru_eeprom_t
pub record FruEeprom : Type 0 where
  pub country_code : Bytes
  pub device_version : ℕ
  pub diag_version : Option Bytes
  pub label_revision : Option Bytes
  pub base_mac_address : Bytes
  pub manufacture_date : Bytes
  pub manufacturer : Option Bytes
  pub num_macs : ℕ
  pub onie_version : Option Bytes
  pub part_number : Option Bytes
  pub platform_name : Option Bytes
  pub product_name : Option Bytes
  pub serial_number : Option Bytes
  pub service_tag : Option Bytes
  pub vendor : Option Bytes

-- As `calloc` leaves it in `sysd_get_subsystem_info`.
abbrev pub cleared : FruEeprom
cleared = record {
  country_code = replicate 3 0;
  device_version = 0;
  diag_version = none;
  label_revision = none;
  base_mac_address = replicate 6 0;
  manufacture_date = replicate 20 0;
  manufacturer = none;
  num_macs = 0;
  onie_version = none;
  part_number = none;
  platform_name = none;
  product_name = none;
  serial_number = none;
  service_tag = none;
  vendor = none;
}

-- The sizes of the arrays inside the record, and the range of its uint16_t.
pub record IsWellFormed (f : FruEeprom) : Type 0 where
  pub country_code_size : length f.country_code ≡ fru_country_code_len + 1
  pub base_mac_address_size : length f.base_mac_address ≡ fru_base_mac_address_len
  pub manufacture_date_size : length f.manufacture_date ≡ fru_manufacture_date_len + 1
  pub num_macs_u16 : f.num_macs < 2 ^ 16

-- (a << 8) | b
unfoldable pub big_endian_16 : ℕ → ℕ → ℕ
big_endian_16 a b = bit_or (a * 256) b

-- (a << 24) | (b << 16) | (c << 8) | d
unfoldable pub big_endian_32 : ℕ → ℕ → ℕ → ℕ → ℕ
big_endian_32 a b c d = bit_or (bit_or (bit_or (a * 2 ^ 24) (b * 2 ^ 16)) (c * 2 ^ 8)) d
