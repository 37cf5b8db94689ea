-- ===== src/Fru/Examples.antt =====
-- A small FRU image, the runs of the reader on it, and the theorems of this part at it.
use ops_sysd.Base.{
  ℕ, ◌+◌, ◌≤◌, ◌≡◌, ◌≢◌, refl, true, false, List, [], ◌∷◌, ◌++◌, none, some, arith, leb, ◌==◌,
  if◌then◌else◌, length, take,
}
use ops_sysd.Base.Text.{Bytes, codes}
use ops_sysd.Base.Outcome.{ok, fault, no_fuel, rc_zero, rc_minus_one}
use ops_sysd.Fru.Layout.{
  product_name, num_mac, country_code, code_of, IsWellFormed, cleared, big_endian_32, decode,
  big_endian_16,
}
use ops_sysd.Fru.Eeprom.{
  Crc32, process_eeprom, process_from, process_tlv, process_code, next_tlv, strncpy, copy_string,
  byte_at, check_crc, copy_to_array,
}
use ops_sysd.Fru.Termination.{process_eeprom_ends}
use ops_sysd.Fru.Image.{Field, image, IsImage, take_all}
use ops_sysd.Fru.RoundTrip.{covered}
use ops_sysd.Fru.Read.{FruEnv, read_fru_eeprom}
use ops_sysd.Fru.EndToEnd.{header_of, fields_of, read_fru_eeprom-image}
use ops_sysd.Fru.Overflow.{process_eeprom-overlong}

-- A checksum that stands in for zlib's: the sum of the bytes.
abbrev sum_bytes : Bytes → ℕ
sum_bytes [] = 0
sum_bytes (c ∷ cs) = c + sum_bytes cs

abbrev byte_sum : Crc32
byte_sum c none = 0
byte_sum c (some cs) = c + sum_bytes cs

abbrev ident : Bytes
ident = codes "TlvInfo" ++ 0 ∷ []

abbrev small_fields : List Field
small_fields =
    record { type = product_name; value = codes "X5" }
    ∷ record { type = num_mac; value = 0 ∷ 2 ∷ [] }
    ∷ record { type = country_code; value = codes "US" }
    ∷ []

small_fields-IsImage : IsImage small_fields
small_fields-IsImage =
    (omega arith, ((0, 2, refl, omega arith, omega arith), ((omega arith, omega arith), tt)))

cleared-IsWellFormed : IsWellFormed cleared
cleared-IsWellFormed = omega arith

abbrev header : Bytes
header = header_of ident 1 0 18

process_eeprom_ends_example : process_eeprom byte_sum (header ++ 0 ∷ []) cleared 7 ≢ no_fuel
process_eeprom_ends_example = process_eeprom_ends byte_sum (header ++ 0 ∷ []) cleared 7

process_eeprom-overlong_example :
    process_eeprom byte_sum
      (header ++ (image small_fields ++ (code_of country_code ∷ 3 ∷ codes "USA")))
      cleared
      40
    ≡ fault
process_eeprom-overlong_example =
    process_eeprom-overlong byte_sum header small_fields country_code 3 40 (codes "USA") cleared
      refl small_fields-IsImage cleared-IsWellFormed (omega arith) (omega arith)

-- The device of the example: it holds the image and nothing behind its last byte.
abbrev eeprom : Bytes
eeprom = header ++ (fields_of small_fields 0 0 5 64 ++ (0 ∷ []))

abbrev device : FruEnv
device = record {
  fru_yaml = false;
  fru_info = none;
  i2c_data_read = λ n. if leb n (length eeprom) then some (take n eeprom) else none;
  calloc_ok = true;
  sscanf_mac = λ text. [];
  rand0 = 1;
  rand1 = 2;
  rand2 = 3;
}

read_fru_eeprom-image_example :
    read_fru_eeprom byte_sum device cleared
    ≡ ok (
      if byte_sum (byte_sum 0 none) (some (covered header small_fields)) == big_endian_32 0 0 5 64
          then rc_zero
          else rc_minus_one,
      take_all small_fields cleared,
    )
read_fru_eeprom-image_example =
    read_fru_eeprom-image byte_sum device ident 1 0 18 small_fields 0 0 5 64 0 [] cleared refl refl
      refl (omega arith) (omega arith) (omega arith) refl small_fields-IsImage cleared-IsWellFormed
      device_answers
  where
    device_answers : (n : ℕ) → n ≤ length eeprom → device.i2c_data_read n ≡ some (take n eeprom)
    device_answers n h = ground arith

abbrev yaml_device : FruEnv
yaml_device = record device { fru_yaml = true }

-- The device is read with the checksum in place.
read_small :
    (elim (read_fru_eeprom byte_sum device cleared) [ ok (rc, f) ↦ f.num_macs | _ ↦ 0 ]) ≡ 2
unfolding read_fru_eeprom process_eeprom process_from process_tlv process_code next_tlv decode
    strncpy copy_string byte_at check_crc copy_to_array big_endian_16 big_endian_32
read_small = refl
