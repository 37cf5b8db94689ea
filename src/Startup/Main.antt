-- ===== src/Startup/Main.antt =====
-- `main` of src/sysd.c up to its loop: what each step needs of those before, and where it exits.
use ops_sysd.Base.{ℕ, Bool, true, false, List, [], ◌∷◌, Option, none, some}
use ops_sysd.Base.Int.{ℤ}
use ops_sysd.Base.Text.{Bytes}
use ops_sysd.Base.Outcome.{Outcome, ok, ◌>>=◌, Rc, rc_zero, rc_minus_one}
use ops_sysd.Configure.Tables.{Globals}
use ops_sysd.Fru.Eeprom.{Crc32}
use ops_sysd.Fru.Read.{FruEnv}
use ops_sysd.Manifest.{Manifest, initial, read_manifest_file}
use ops_sysd.Manifest.Tree.{Json}
use ops_sysd.Startup.CfgYaml.{YamlResults, cfg_yaml_init}
use ops_sysd.Startup.HwDesc.{Platform, HwDesc, find_hw_desc_files}
use ops_sysd.Subsystem.{YamlPortInfo, YamlPort, Subsystem, get_subsystem_info, get_interface_info}

-- What the steps find: the manifest and the memory for it, the platform, the YAML library with its FRU
-- data and ports, and the memory for the subsystem and its interfaces.
pub record StartEnv : Type 0 where
  pub manifest_info : Option Json
  pub manifest_calloc_ok : ℕ → Bool
  pub manifest_block : Bytes
  pub platform : Platform
  pub yaml : YamlResults
  pub crc32 : Crc32
  pub fru : FruEnv
  pub mac_value : Bytes → ℕ
  pub list_ok : Bool
  pub block_ok : Bool
  pub port_info : Option YamlPortInfo
  pub port_count : ℤ
  pub port : ℕ → Option YamlPort
  pub array_ok : Bool
  pub release : Option (List Bytes)

-- Where main exits, or the globals that its loop starts with.
pub data Start : Type 0 where
  no_manifest no_hw_desc no_yaml no_subsystems no_interfaces : Start
  running : Globals → Start

abbrev pub no_link : HwDesc
no_link = record { g_hw_desc_dir = none; link = none }

unfoldable pub after_interfaces : StartEnv → Manifest → Bytes → Option Subsystem → Start
after_interfaces env m dir none = no_interfaces
after_interfaces env m dir (some s) =
    running (record { manifest = m; subsystems = s ∷ []; hw_desc_dir = dir; release = env.release })

unfoldable pub after_subsystem : StartEnv → Manifest → Bytes → Option Subsystem → Start
unfolding after_interfaces
after_subsystem env m dir none = no_subsystems
after_subsystem env m dir (some s) =
    after_interfaces env m dir
      (get_interface_info env.port_info env.port_count env.port env.array_ok s)

unfoldable pub after_yaml : StartEnv → Manifest → Bytes → Bool × Bool → Outcome Start
unfolding after_subsystem
after_yaml env m dir (false, fru_yaml) = ok no_yaml
after_yaml env m dir (true, fru_yaml) = do
  s ←
      get_subsystem_info env.crc32 (record env.fru { fru_yaml = fru_yaml }) env.mac_value
        env.list_ok env.block_ok
  ok (after_subsystem env m dir s)

unfoldable pub after_link : StartEnv → Manifest → Rc × HwDesc → Outcome Start
unfolding after_yaml
after_link env m (rc_minus_one, h) = ok no_hw_desc
after_link env m (rc_zero, h) = elim h.g_hw_desc_dir [
  | none ↦ ok no_hw_desc
  | some dir ↦ after_yaml env m dir (cfg_yaml_init env.yaml true)
]

unfoldable pub after_manifest : StartEnv → Rc × Manifest → Outcome Start
unfolding after_link
after_manifest env (rc_minus_one, m) = ok no_manifest
after_manifest env (rc_zero, m) = after_link env m (find_hw_desc_files env.platform no_link)

unfoldable pub start : StartEnv → Outcome Start
unfolding after_manifest
start env = do
  read ← read_manifest_file env.manifest_calloc_ok env.manifest_block env.manifest_info initial
  after_manifest env read
