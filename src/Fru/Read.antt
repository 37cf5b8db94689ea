-- ===== src/Fru/Read.antt =====
-- src/sysd_fru.c `sysd_read_fru_eeprom`, with `sysd_cfg_yaml_fru_read` and
-- `sysd_cfg_yaml_get_fru_info` of src/sysd_cfg_yaml.c. The config-yaml and i2c libraries, libc's
-- sscanf, rand and the allocator are the record `FruEnv`.
use ops_sysd.Base.{
  ℕ, zero, suc, ◌+◌, ◌%◌, ◌^◌, Bool, true, false, not, List, [], ◌∷◌, Option, none, some, ltb, leb,
  ◌/◌, length, if◌then◌else◌, set, replicate,
}
use ops_sysd.Base.Text.{Bytes}
use ops_sysd.Base.Outcome.{Outcome, ok, fault, ◌>>=◌, Rc, rc_zero, rc_minus_one}
use ops_sysd.Fru.Layout.{
  FruEeprom, fru_header_size, fru_country_code_len, fru_manufacture_date_len,
  supported_ocp_fru_eeprom_version, big_endian_16,
}
use ops_sysd.Fru.Eeprom.{Crc32, byte_at, process_eeprom}

-- The fields of config-yaml's YamlFruInfo that are read. A string is its bytes without the NUL.
pub record YamlFruInfo : Type 0 where
  pub country_code : Bytes
  pub diag_version : Option Bytes
  pub label_revision : Option Bytes
  pub base_mac_address : Bytes
  pub manufacture_date : Bytes
  pub manufacturer : Option Bytes
  pub num_macs : ℕ
  pub onie_version : Option Bytes
  pub part_number : Option Bytes
  pub platform_name : Option Bytes
  pub product_name : Option Bytes
  pub serial_number : Option Bytes
  pub service_tag : Option Bytes
  pub vendor : Option Bytes

pub record FruEnv : Type 0 where
  -- the global `fru_yaml`
  pub fru_yaml : Bool
  -- yaml_get_fru_info; `none` is NULL
  pub fru_info : Option YamlFruInfo
  -- i2c_data_read from offset 0: that many bytes, or `none` for an error code
  pub i2c_data_read : ℕ → Option Bytes
  -- whether calloc gives the block
  pub calloc_ok : Bool
  -- sscanf with six conversions %x on the text of the address: the numbers that it stores, in order
  pub sscanf_mac : Bytes → List ℕ
  -- three calls of rand after srand
  pub rand0 : ℕ
  pub rand1 : ℕ
  pub rand2 : ℕ

-- strncpy(array, s, n) of a text `s` into an array of n + 1 bytes, whose last is then cleared
unfoldable pub pad : ℕ → Bytes → Bytes
pad zero s = 0 ∷ []
pad (suc n) [] = replicate (suc (suc n)) 0
pad (suc n) (c ∷ s) = c ∷ pad n s

-- An unsigned int stored through a pointer to byte `i` of an array: four bytes, the lowest first.
unfoldable pub store_int : ℕ → ℕ → Bytes → Outcome Bytes
store_int n i a =
    if leb (i + 4) (length a)
    then ok (
        set (set (set (set a i (n % 256)) (i + 1) (n / 256 % 256)) (i + 2) (n / 65536 % 256))
          (i + 3) (n / 16777216 % 256))
    else fault

-- What sscanf stores, from &fru_eeprom->base_mac_address[i] on
unfoldable pub store_ints : ℕ → List ℕ → Bytes → Outcome Bytes
unfolding store_int
store_ints i [] a = ok a
store_ints i (n ∷ ns) a = store_int n i a >>= store_ints (i + 1) ns

unfoldable pub get_fru_info : FruEnv → FruEeprom → Outcome (Rc × FruEeprom)
unfolding store_ints
get_fru_info env f = elim env.fru_info [
  | none ↦ ok (rc_minus_one, f)
  | some i ↦ do
    scanned ← store_ints 0 (env.sscanf_mac i.base_mac_address) f.base_mac_address
    let mac3 = set scanned 3 (env.rand0 % 256)
    let mac4 = set mac3 4 (env.rand1 % 256)
    let mac5 = set mac4 5 (env.rand2 % 256)
    ok (
      rc_zero,
      record f {
        country_code = pad fru_country_code_len i.country_code;
        diag_version = i.diag_version;
        label_revision = i.label_revision;
        base_mac_address = mac5;
        manufacture_date = pad fru_manufacture_date_len i.manufacture_date;
        manufacturer = i.manufacturer;
        num_macs = i.num_macs % 2 ^ 16;
        onie_version = i.onie_version;
        part_number = i.part_number;
        platform_name = i.platform_name;
        product_name = i.product_name;
        serial_number = i.serial_number;
        service_tag = i.service_tag;
        vendor = i.vendor;
      },
    )
]

-- An int stored in a bool, and the bool read as an int.
abbrev pub bool_of_rc : Rc → Bool
bool_of_rc rc_zero = false
bool_of_rc rc_minus_one = true

abbrev pub int_of_bool : Bool → ℕ
int_of_bool false = 0
int_of_bool true = 1

-- `sysd_cfg_yaml_fru_read`: the bytes that it stores, or `none` for false
unfoldable pub fru_read : FruEnv → ℕ → Option Bytes
fru_read env len = env.i2c_data_read len

-- The branch of `sysd_read_fru_eeprom` with fru.yaml: the status is kept in a bool.
unfoldable pub read_yaml : FruEnv → FruEeprom → Outcome (Rc × FruEeprom)
unfolding get_fru_info
read_yaml env f = do
  (status, f') ← get_fru_info env f
  let rc = bool_of_rc status
  ok (if ltb (int_of_bool rc) 0 then rc_minus_one else rc_zero, f')

module _ (crc32 : Crc32) (env : FruEnv) where
  -- What follows the second read of `len` bytes.
  unfoldable pub after_body : ℕ → FruEeprom → Option Bytes → Outcome (Rc × FruEeprom)
  after_body total_len f none = ok (rc_minus_one, f)
  after_body total_len f (some buf) = do
    (rc, f') ← process_eeprom crc32 buf f total_len
    ok (if not rc then rc_minus_one else rc_zero, f')

  -- From the allocation on, with `total_len` from the header.
  unfoldable pub read_body : ℕ → FruEeprom → Outcome (Rc × FruEeprom)
  unfolding after_body fru_read
  read_body total_len f =
      if not env.calloc_ok
      then ok (rc_minus_one, f)
      else after_body total_len f (fru_read env (total_len + fru_header_size + 1))

  -- Fail if this OCP FRU version is higher than we support.
  unfoldable pub check_version : ℕ → ℕ → FruEeprom → Outcome (Rc × FruEeprom)
  unfolding read_body
  check_version version total_len f =
      if ltb supported_ocp_fru_eeprom_version version
      then ok (rc_minus_one, f)
      else read_body total_len f

  -- What follows the first read.
  unfoldable pub after_header : FruEeprom → Option Bytes → Outcome (Rc × FruEeprom)
  unfolding check_version
  after_header f none = ok (rc_minus_one, f)
  after_header f (some header) = do
    version ← byte_at header 8
    hi ← byte_at header 9
    lo ← byte_at header 10
    check_version version (big_endian_16 hi lo) f

  unfoldable pub read_fru_eeprom : FruEeprom → Outcome (Rc × FruEeprom)
  unfolding after_header fru_read
  read_fru_eeprom f =
      if env.fru_yaml then read_yaml env f else after_header f (fru_read env fru_header_size)
