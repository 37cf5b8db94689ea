-- ===== src/Startup/CfgYaml.antt =====
-- src/sysd_cfg_yaml.c: `sysd_cfg_yaml_open`, `sysd_cfg_yaml_init` and the status LED.
use ops_sysd.Base.{
  ℕ, Bool, true, false, not, ◌&&◌, ◌||◌, ◌≡◌, Option, none, some, if◌then◌else◌, arith,
}
use ops_sysd.Base.Int.{ℤ, pos, is_negative}
use ops_sysd.Qos.Profiles.{int_eq}

-- What config-yaml's functions return, the constant FRU_YAML_NOT_FOUND, and whether the device is
-- found.
pub record YamlResults : Type 0 where
  pub add_subsystem : ℤ
  pub parse_devices : ℤ
  pub parse_ports : ℤ
  pub parse_fru : ℤ
  pub fru_yaml_not_found : ℤ
  pub parse_qos : ℤ
  pub parse_acl : ℤ
  pub init_devices : ℤ
  pub fru_dev_found : Bool

unfoldable pub cfg_yaml_open : YamlResults → Bool
cfg_yaml_open y = int_eq y.add_subsystem (pos 0)

-- The end of `sysd_cfg_yaml_init`, from the QoS file on, whose result and that of the ACL file are only
-- logged; with the result comes the global `fru_yaml`.
unfoldable pub init_devices : YamlResults → Bool → Bool × Bool
init_devices y fru_yaml =
    if is_negative y.init_devices
    then (false, fru_yaml)
    else if not y.fru_dev_found
    then (false, fru_yaml)
    else (true, fru_yaml)

unfoldable pub parse_fru : YamlResults → Bool → Bool × Bool
unfolding init_devices
parse_fru y fru_yaml =
    if int_eq y.fru_yaml_not_found y.parse_fru
    then init_devices y false
    else if is_negative y.parse_fru
    then (false, fru_yaml)
    else init_devices y fru_yaml

-- `sysd_cfg_yaml_init`
unfoldable pub cfg_yaml_init : YamlResults → Bool → Bool × Bool
unfolding cfg_yaml_open parse_fru
cfg_yaml_init y fru_yaml =
    if not (cfg_yaml_open y)
    then (false, fru_yaml)
    else if is_negative y.parse_devices
    then (false, fru_yaml)
    else if is_negative y.parse_ports
    then (false, fru_yaml)
    else parse_fru y fru_yaml

-- config-yaml's YamlSystemLedInfo: the register, if there is one, and its settings.
pub record SystemLed : Type 0 where
  pub status_led : Option ℕ
  pub when_on : ℕ
  pub when_flashing : ℕ

-- `sysd_cfg_yaml_set_system_status_led`: the register that is written, with its value
unfoldable pub set_system_status_led : Option SystemLed → Bool → Option (ℕ × ℕ)
set_system_status_led none good = none
set_system_status_led (some led) good = elim led.status_led [
  | none ↦ none
  | some register ↦ some (register, if good then led.when_on else led.when_flashing)
]

-- The condition under which the description files are complete.
abbrev pub is_complete : YamlResults → Bool
is_complete y =
    int_eq y.add_subsystem (pos 0)
    && not (is_negative y.parse_devices)
    && not (is_negative y.parse_ports)
    && (int_eq y.fru_yaml_not_found y.parse_fru || not (is_negative y.parse_fru))
    && not (is_negative y.init_devices)
    && y.fru_dev_found

-- `sysd_cfg_yaml_init` succeeds exactly if the subsystem is added, the devices and the ports are
-- parsed, the FRU file is parsed or missing, the devices are initialized and the FRU EEPROM is among
-- them; the QoS and the ACL file do not count. After a success the global `fru_yaml` is what it was,
-- or false if the FRU file is missing.
pub cfg_yaml_init-is_complete :
    (y : YamlResults) (fru_yaml : Bool)
    → ((cfg_yaml_init y fru_yaml).0 ≡ is_complete y)
      × ((cfg_yaml_init y fru_yaml).0 && (cfg_yaml_init y fru_yaml).1
          ≡ is_complete y && (fru_yaml && not (int_eq y.fru_yaml_not_found y.parse_fru)))
unfolding cfg_yaml_init cfg_yaml_open parse_fru init_devices
cfg_yaml_init-is_complete y fru_yaml = ground arith
