-- ===== src/Fru/Eeprom.antt =====
-- src/sysd_fru.c `sysd_process_eeprom` and src/sysd_util.c `calc_crc`. The image is a heap block;
-- `bp` is the block from its start, `rest` and `value` are what is left of it behind a pointer, so
-- a read past its end, or a write past the end of an array of the record, is a `fault`.
use ops_sysd.Base.{
  ℕ, zero, suc, ◌+◌, ◌-◌, ◌%◌, ◌^◌, Bool, true, false, [], ◌∷◌, ◌++◌, Option, none, some, ltb, leb,
  ◌==◌, if◌then◌else◌, length, take, drop, set, replicate,
}
use ops_sysd.Base.Text.{Bytes}
use ops_sysd.Base.Outcome.{Outcome, ok, fault, no_fuel, ◌>>=◌}
use ops_sysd.Fru.Layout.{
  TlvType, product_name, part_number, serial_number, num_mac, base_mac_address, manufacture_date,
  device_version, label_revision, platform_name, onie_version, manufacturer, country_code, vendor,
  diag_version, service_tag, vendor_extension, crc, decode, FruEeprom, fru_header_size,
  fru_tlv_header_size, fru_base_mac_address_len, big_endian_16, big_endian_32,
}

-- The n bytes that strncpy(dst, src, n) writes: `src` up to its NUL, then zeros.
unfoldable pub strncpy : ℕ → Bytes → Outcome Bytes
strncpy zero src = ok []
strncpy (suc n) [] = fault
strncpy (suc n) (c ∷ src) =
    let rest = (do cs ← strncpy n src; ok (c ∷ cs)) in
    if c == 0 then ok (replicate (suc n) 0) else rest

-- The n bytes that bcopy(src, dst, n) reads.
unfoldable pub read_bytes : ℕ → Bytes → Outcome Bytes
read_bytes n src = if leb n (length src) then ok (take n src) else fault

-- SYSD_MALLOC(p, tlv_len + 1); strncpy(p, tlv_value, tlv_len); p[tlv_len] = '\0'
unfoldable pub copy_string : ℕ → Bytes → Outcome (Option Bytes)
copy_string tlv_len value = do cs ← strncpy tlv_len value; ok (some (cs ++ 0 ∷ []))

-- strncpy(array, tlv_value, tlv_len + 1); array[tlv_len] = '\0', on an array inside the record
unfoldable pub copy_to_array : Bytes → ℕ → Bytes → Outcome Bytes
copy_to_array array tlv_len value =
    if ltb (length array) (tlv_len + 1)
    then fault
    else do cs ← strncpy (suc tlv_len) value; ok (set (cs ++ drop (suc tlv_len) array) tlv_len 0)

-- One byte of a value.
unfoldable pub byte_at : Bytes → ℕ → Outcome ℕ
byte_at [] i = fault
byte_at (c ∷ cs) zero = ok c
byte_at (c ∷ cs) (suc i) = byte_at cs i

-- zlib's crc32(crc, buf, len); `none` is Z_NULL.
abbrev pub Crc32 : Type 0
Crc32 = ℕ → Option Bytes → ℕ

-- What follows the `switch`: the return, or the next round of the loop.
unfoldable pub next_tlv :
    (FruEeprom → Outcome (Bool × FruEeprom))
    → FruEeprom
    → Option FruEeprom
    → Outcome (Bool × FruEeprom)
next_tlv loop f none = ok (false, f)
next_tlv loop f (some f') = loop f'

module _ (crc32 : Crc32) where
  unfoldable pub calc_crc : Bytes → ℕ → Outcome ℕ
  calc_crc buf len =
      if leb len (length buf) then ok (crc32 (crc32 0 none) (some (take len buf))) else fault

  -- The case FRU_CRC_TYPE. A negative `crc_len` becomes a length of some 4 GB in the call.
  unfoldable pub check_crc : Bytes → ℕ → ℕ → Bytes → Outcome Bool
  unfolding calc_crc
  check_crc bp len tlv_len value = if ltb (len + fru_header_size) tlv_len then fault else do
    chksum ← calc_crc bp (len + fru_header_size - tlv_len)
    v0 ← byte_at value 0
    v1 ← byte_at value 1
    v2 ← byte_at value 2
    v3 ← byte_at value 3
    ok (chksum == big_endian_32 v0 v1 v2 v3)

  -- The body of the `switch`; `none` is `return (false)`.
  unfoldable pub process_tlv :
      TlvType → Bytes → ℕ → ℕ → Bytes → FruEeprom → Outcome (Option FruEeprom)
  process_tlv product_name bp len n value f = do
    s ← copy_string n value
    ok (some (record f { product_name = s }))
  process_tlv part_number bp len n value f = do
    s ← copy_string n value
    ok (some (record f { part_number = s }))
  process_tlv serial_number bp len n value f = do
    s ← copy_string n value
    ok (some (record f { serial_number = s }))
  process_tlv num_mac bp len n value f = do
    v0 ← byte_at value 0
    v1 ← byte_at value 1
    ok (some (record f { num_macs = big_endian_16 v0 v1 % 2 ^ 16 }))
  process_tlv base_mac_address bp len n value f = do
    mac ← read_bytes fru_base_mac_address_len value
    ok (some (record f { base_mac_address = mac }))
  process_tlv manufacture_date bp len n value f = do
    s ← copy_to_array f.manufacture_date n value
    ok (some (record f { manufacture_date = s }))
  process_tlv device_version bp len n value f = do
    v0 ← byte_at value 0
    ok (some (record f { device_version = v0 }))
  process_tlv label_revision bp len n value f = do
    s ← copy_string n value
    ok (some (record f { label_revision = s }))
  process_tlv platform_name bp len n value f = do
    s ← copy_string n value
    ok (some (record f { platform_name = s }))
  process_tlv onie_version bp len n value f = do
    s ← copy_string n value
    ok (some (record f { onie_version = s }))
  process_tlv manufacturer bp len n value f = do
    s ← copy_string n value
    ok (some (record f { manufacturer = s }))
  process_tlv country_code bp len n value f = do
    s ← copy_to_array f.country_code n value
    ok (some (record f { country_code = s }))
  process_tlv vendor bp len n value f = do
    s ← copy_string n value
    ok (some (record f { vendor = s }))
  process_tlv diag_version bp len n value f = do
    s ← copy_string n value
    ok (some (record f { diag_version = s }))
  process_tlv service_tag bp len n value f = do
    s ← copy_string n value
    ok (some (record f { service_tag = s }))
  process_tlv vendor_extension bp len n value f = ok (some f)
  process_tlv crc bp len n value f = do
    same ← check_crc bp len n value
    ok (if same then some f else none)

  -- The `switch`, whose `default` returns false.
  unfoldable pub process_code :
      Option TlvType → Bytes → ℕ → ℕ → Bytes → FruEeprom → Outcome (Option FruEeprom)
  process_code none bp len n value f = ok none
  process_code (some t) bp len n value f = process_tlv t bp len n value f

  -- while (idx < len)
  unfoldable pub process_from :
      (fuel : ℕ) (bp : Bytes) (len idx : ℕ) (rest : Bytes) (f : FruEeprom)
      → Outcome (Bool × FruEeprom)
  process_from zero bp len idx rest f = no_fuel
  process_from (suc fuel) bp len idx rest f =
      let body = (do
        code ← byte_at rest 0
        tlv_len ← byte_at rest 1
        let value = drop 2 rest
        f' ← process_code (decode code) bp len tlv_len value f
        let skip = tlv_len + fru_tlv_header_size
        next_tlv (process_from fuel bp len (idx + skip) (drop skip rest)) f f') in
      if ltb idx len then body else ok (true, f)

  unfoldable pub process_eeprom : Bytes → FruEeprom → ℕ → Outcome (Bool × FruEeprom)
  process_eeprom buf f len = process_from (suc len) buf len 0 (drop fru_header_size buf) f
